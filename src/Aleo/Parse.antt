-- ===== src/Aleo/Parse.antt =====
-- attestor/chainService/chain/aleo/utils.go: packets and addresses from and to the text of the aleo
-- program.
use verulink.Base.{
  ℕ, zero, suc, ◌-◌, not, ◌%◌, ◌^◌, false, List, [], ◌∷◌, ◌++◌, Bytes, codes, Result, ok, err,
  message, or_err, ◌>>=◌, if◌then◌else◌, ltb, ◌==◌, take, drop, length, remove_all, remove_first,
  count, split,
}
use verulink.Chain.{Packet}
use verulink.Chain.BigInt.{ℤ, pos, negsuc, itoa, big_string, set_string}
use verulink.Aleo.Numerals.{any_base, set_string_any_base}
use verulink.Aleo.Fields.{AleoPacket}

unfoldable pub construct_out_mapping_key : Bytes → ℕ → Bytes
construct_out_mapping_key dst seq_num =
    codes "{chain_id:" ++ dst ++ codes "u128,sequence:" ++ itoa seq_num ++ codes "u64}"

-- `Uint64`: the low 64 bits of the absolute value.
abbrev pub low_word : ℤ → ℕ
low_word (pos n) = n % 2 ^ 64
low_word (negsuc n) = suc n % 2 ^ 64

-- A decimal number with the suffix of its type.
abbrev pub number : Bytes → Bytes → Bytes → Result ℤ
number suffix error text = or_err (set_string (remove_first suffix text)) (message error)

-- `ParseUint(s, 0, 8)` of the words from the thirteenth on.
abbrev pub parse_bytes : List Bytes → Result Bytes
parse_bytes [] = ok []
parse_bytes (w ∷ ws) = do
  n ← or_err (any_base w) (message (codes "invalid syntax"))
  b ← if ltb n 256 then ok n else err (message (codes "value out of range"))
  rest ← parse_bytes ws
  ok (b ∷ rest)

-- `strings.Trim(s, " ")`.
abbrev pub trim_left : Bytes → Bytes
trim_left [] = []
trim_left (c ∷ s) = let rest = trim_left s in if c == b' ' then rest else c ∷ s

abbrev pub trim_right : Bytes → Bytes
trim_right [] = []
trim_right (c ∷ []) = if c == b' ' then [] else c ∷ []
trim_right (c ∷ d ∷ s) = elim (trim_right (d ∷ s)) [
  | [] ↦ if c == b' ' then [] else c ∷ []
  | e ∷ t ↦ c ∷ e ∷ t
]

-- go-ethereum's `BytesToAddress(b).String()` and `HexToAddress(s).Bytes()` are parameters.
module _ (bytes_to_address : Bytes → Bytes) where
  unfoldable pub parse_aleo_eth_addr_to_hex_string : Bytes → Result Bytes
  parse_aleo_eth_addr_to_hex_string addr =
      if not (count (codes "u8") 0 addr == 32)
      then err (message (codes "invalid address string"))
      else (do
        addrbt ←
            parse_bytes
              (drop 12 (split b' ' (trim_right (trim_left (remove_all (codes "u8") 0 addr)))))
        ok (bytes_to_address addrbt))

  unfoldable pub parse_aleo_packet : AleoPacket → Result Packet
  unfolding parse_aleo_eth_addr_to_hex_string
  parse_aleo_packet p = do
    version ← number (codes "u8") (codes "failed to parse version") p.version
    sequence ← number (codes "u64") (codes "failed to parse sequence") p.sequence
    source_chain_id ← number (codes "u128") (codes "failed to parse version") p.source.chain_id
    dest_chain_id ← number (codes "u128") (codes "failed to parse version") p.destination.chain_id
    dest_address ← parse_aleo_eth_addr_to_hex_string p.destination.address
    dest_token_address ← parse_aleo_eth_addr_to_hex_string p.message.token
    receiver_address ← parse_aleo_eth_addr_to_hex_string p.message.receiver
    amount ←
        or_err (set_string_any_base (remove_first (codes "u128") p.message.amount))
          (message (codes "failed in parsing amount"))
    height ← number (codes "u64") (codes "failed to parse version") p.height
    ok (record {
      version = low_word version % 2 ^ 8;
      source = record { chain_id = source_chain_id; address = p.source.address };
      destination = record { chain_id = dest_chain_id; address = dest_address };
      sequence = low_word sequence;
      message = record {
        dest_token_address = dest_token_address;
        sender_address = p.message.sender;
        amount = amount;
        receiver_address = receiver_address;
      };
      height = low_word height;
      is_missed = false;
    })

abbrev pub repeat : ℕ → Bytes → Bytes
repeat zero s = []
repeat (suc n) s = s ++ repeat n s

abbrev pub byte_list : Bytes → Bytes
byte_list [] = []
byte_list (b ∷ bs) = itoa b ++ codes "u8, " ++ byte_list bs

module _ (hex_to_address : Bytes → Bytes) where
  -- The address has 20 bytes.
  unfoldable pub construct_eth_address_for_aleo_parameter : Bytes → Bytes
  construct_eth_address_for_aleo_parameter service_contract =
      let b = hex_to_address service_contract in
      let text = codes "[ " ++ repeat (32 - length b) (codes "0u8, ") ++ byte_list b in
      take (length text - 2) text ++ codes " ]"

  unfoldable pub construct_aleo_packet : Packet → Bytes
  unfolding construct_eth_address_for_aleo_parameter
  construct_aleo_packet msg =
      codes "{ version: "
      ++ itoa msg.version
      ++ codes "u8, sequence: "
      ++ itoa msg.sequence
      ++ codes "u64, source: { chain_id: "
      ++ big_string msg.source.chain_id
      ++ codes "u128, addr: "
      ++ construct_eth_address_for_aleo_parameter msg.source.address
      ++ codes " }, destination: { chain_id: "
      ++ big_string msg.destination.chain_id
      ++ codes "u128, addr: "
      ++ msg.destination.address
      ++ codes " }, message: { dest_token_address: "
      ++ msg.message.dest_token_address
      ++ codes ", sender_address: "
      ++ construct_eth_address_for_aleo_parameter msg.message.sender_address
      ++ codes ", receiver_address: "
      ++ msg.message.receiver_address
      ++ codes ", amount: "
      ++ big_string msg.message.amount
      ++ codes "u128 }, height: "
      ++ itoa msg.height
      ++ codes "u64 }"
