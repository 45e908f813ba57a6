-- ===== src/Signing/Ethereum.antt =====
-- attestor/signingService/chain/ethereum: the hash of a packet and its signature. go-ethereum's
-- functions are parameters.
use verulink.Base.{
  ℕ, ◌^◌, Bool, List, [], ◌∷◌, ◌++◌, Bytes, codes, Result, ok, err, panics, message, ◌>>=◌,
  if◌then◌else◌, ltb, remove_first, suc,
}
use verulink.Chain.{Packet, ScreenedPacket}
use verulink.Chain.BigInt.{ℤ, pos, negsuc}
use verulink.Store.Key.BigEndian.{be}

pub record Crypto : Type 1 where
  pub PrivateKey : Type 0
  pub keccak256 : Bytes → Bytes
  -- `HexToAddress(s).Bytes()`, 20 bytes.
  pub hex_to_address : Bytes → Bytes
  -- `Hash.Hex` and `HexToHash(s).Bytes()`.
  pub hash_hex : Bytes → Bytes
  pub hex_to_hash : Bytes → Bytes
  pub hex_to_ecdsa : Bytes → Result PrivateKey
  -- `PubkeyToAddress(k.PublicKey).Hex()`.
  pub wallet_of : PrivateKey → Bytes
  pub sign : Bytes → PrivateKey → Result Bytes
  pub bytes_to_hex : Bytes → Bytes
  -- `strings.EqualFold`.
  pub equal_fold : Bytes → Bytes → Bool

-- `PutUint64` into the last eight of 32 zero bytes.
unfoldable pub word_bytes : ℕ → Bytes
word_bytes v = be 32 v

abbrev pub magnitude : ℤ → ℕ
magnitude (pos n) = n
magnitude (negsuc n) = suc n

-- `FillBytes` of 32 bytes, which panics where the absolute value does not fit.
unfoldable pub fill_bytes : ℤ → Result Bytes
fill_bytes z = if ltb (magnitude z) (256 ^ 32) then ok (be 32 (magnitude z)) else panics

unfoldable pub get_eth_bool_byte : Bool → Bytes
get_eth_bool_byte b = if b then 1 ∷ [] else 0 ∷ []

-- `Keccak256Hash` takes its arguments one after the other.
abbrev pub concat : List Bytes → Bytes
concat [] = []
concat (b ∷ bs) = b ++ concat bs

module _ (crypto : Crypto) where
  open crypto use {
    PrivateKey, keccak256, hex_to_address, hash_hex, hex_to_hash, hex_to_ecdsa, wallet_of,
    bytes_to_hex, equal_fold,
  }

  -- What the first hash is taken of.
  unfoldable pub packet_bytes : Packet → Result Bytes
  unfolding word_bytes fill_bytes
  packet_bytes p = do
    amount_bytes ← fill_bytes p.message.amount
    src_chain_id_bytes ← fill_bytes p.source.chain_id
    dst_chain_id_bytes ← fill_bytes p.destination.chain_id
    ok (
        concat (
          word_bytes p.version
          ∷ word_bytes p.sequence
          ∷ src_chain_id_bytes
          ∷ p.source.address
          ∷ dst_chain_id_bytes
          ∷ hex_to_address p.destination.address
          ∷ p.message.sender_address
          ∷ hex_to_address p.message.dest_token_address
          ∷ amount_bytes
          ∷ hex_to_address p.message.receiver_address
          ∷ word_bytes p.height
          ∷ []))

  unfoldable pub hash : ScreenedPacket → Result Bytes
  unfolding packet_bytes get_eth_bool_byte
  hash sp = do
    preimage ← packet_bytes sp.packet
    let vote = keccak256 (concat (keccak256 preimage ∷ get_eth_bool_byte sp.is_white ∷ [])) in
        ok (
          hash_hex (
            keccak256
              (concat ((25 ∷ codes "Ethereum Signed Message:" ++ 10 ∷ codes "32") ∷ vote ∷ []))))

  -- `pKey`.
  unfoldable pub sign : PrivateKey → Bytes → Result Bytes
  sign p_key hash_string = do
    b ← crypto.sign (hex_to_hash hash_string) p_key
    ok (codes "0x" ++ bytes_to_hex b)

  unfoldable pub hash_and_sign : PrivateKey → ScreenedPacket → Result (Bytes × Bytes)
  unfolding hash sign
  hash_and_sign p_key sp = do hsh ← hash sp; signature ← sign p_key hsh; ok (hsh, signature)

  unfoldable pub validate_key : PrivateKey → Bytes → Result (Unit {0})
  validate_key private_key addr =
      if equal_fold (wallet_of private_key) addr
      then ok tt
      else err (message (codes "private key cannot derive given wallet address"))

  -- The key that `pKey` is set to.
  unfoldable pub set_up_private_key : Bytes → Bytes → Result PrivateKey
  unfolding validate_key
  set_up_private_key private_key wallet_address = do
    key ← hex_to_ecdsa (remove_first (codes "0x") private_key)
    valid ← validate_key key wallet_address
    ok key
