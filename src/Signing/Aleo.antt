-- ===== src/Signing/Aleo.antt =====
-- attestor/signingService/chain/aleo: the executable `ahs` hashes and signs; it is a parameter.
use verulink.Base.{
  Bool, List, [], ◌∷◌, ◌++◌, Bytes, codes, Result, ok, err, message, ◌>>=◌, if◌then◌else◌, eqb,
}
use verulink.Chain.{Packet, ScreenedPacket}
use verulink.Chain.BigInt.{itoa, big_string}
use verulink.Aleo.Parse.{construct_eth_address_for_aleo_parameter}

-- The output of the executable on its arguments, and `HexToAddress(s).Bytes()`.
pub record Tools : Type 0 where
  pub ahs : List Bytes → Result Bytes
  pub hex_to_address : Bytes → Bytes

unfoldable pub get_aleo_bool : Bool → Bytes
get_aleo_bool is_white = if is_white then codes "true" else codes "false"

unfoldable pub construct_aleo_screening_packet : Bytes → Bytes → Bytes
construct_aleo_screening_packet packet_hash screening =
    codes "{packet_hash:" ++ packet_hash ++ codes ",screening_passed:" ++ screening ++ codes "}"

module _ (tools : Tools) where
  open tools use {ahs, hex_to_address}

  unfoldable pub construct_aleo_packet : Packet → Bytes
  construct_aleo_packet pkt =
      codes "{ version: "
      ++ itoa pkt.version
      ++ codes "u8, sequence: "
      ++ itoa pkt.sequence
      ++ codes "u64, source: { chain_id: "
      ++ big_string pkt.source.chain_id
      ++ codes "u128, addr: "
      ++ construct_eth_address_for_aleo_parameter hex_to_address pkt.source.address
      ++ codes " }, destination: { chain_id: "
      ++ big_string pkt.destination.chain_id
      ++ codes "u128, addr: "
      ++ pkt.destination.address
      ++ codes " }, message: { sender_address: "
      ++ construct_eth_address_for_aleo_parameter hex_to_address pkt.message.sender_address
      ++ codes ", dest_token_id: "
      ++ pkt.message.dest_token_address
      ++ codes " , amount: "
      ++ big_string pkt.message.amount
      ++ codes "u128 , receiver_address: "
      ++ pkt.message.receiver_address
      ++ codes " }, height: "
      ++ itoa pkt.height
      ++ codes "u64 }"

  abbrev run_hash : Bytes → Result Bytes
  run_hash text = ahs (codes "hash" ∷ codes "bhp256" ∷ text ∷ codes "field" ∷ [])

  unfoldable pub hash : ScreenedPacket → Result Bytes
  unfolding construct_aleo_packet construct_aleo_screening_packet get_aleo_bool
  hash sp = do
    packet_hash ← run_hash (construct_aleo_packet sp.packet)
    run_hash (construct_aleo_screening_packet packet_hash (get_aleo_bool sp.is_white))

  -- `sKey`.
  unfoldable pub sign : Bytes → Bytes → Result Bytes
  sign s_key s = ahs (codes "sign" ∷ s_key ∷ s ∷ [])

  unfoldable pub hash_and_sign : Bytes → ScreenedPacket → Result (Bytes × Bytes)
  unfolding hash sign
  hash_and_sign s_key sp = do hsh ← hash sp; signature ← sign s_key hsh; ok (hsh, signature)

  unfoldable pub validate_aleo_private_key : Bytes → Bytes → Result (Unit {0})
  validate_aleo_private_key private_key public_key = do
    addr ← ahs (codes "derive-addr" ∷ private_key ∷ [])
    if eqb public_key addr
        then ok tt
        else err (message (codes "supplied private key couldnot derive supplied public key"))

  -- The key that `sKey` is set to.
  unfoldable pub set_up_private_key : Bytes → Bytes → Result Bytes
  unfolding validate_aleo_private_key
  set_up_private_key private_key wallet_address = do
    valid ← validate_aleo_private_key private_key wallet_address
    ok private_key
