-- ===== src/Chain.antt =====
-- The packets that every component passes on (attestor/chainService/chain/types.go).
pub mod BigInt
use verulink.Base.{
  ℕ, Bool, List, ◌∷◌, Option, none, some, Bytes, Result, ok, ◌>>=◌, codes, ◌≡◌, ◌⊎◌, [],
}
use BigInt.{ℤ, big_string, set_string}

pub record NetworkAddress : Type 0 where
  pub chain_id : ℤ
  pub address : Bytes

pub record Message : Type 0 where
  pub dest_token_address : Bytes
  pub sender_address : Bytes
  pub amount : ℤ
  pub receiver_address : Bytes

pub record Packet : Type 0 where
  pub version : ℕ
  pub source : NetworkAddress
  pub destination : NetworkAddress
  pub sequence : ℕ
  pub message : Message
  pub height : ℕ
  pub is_missed : Bool

unfoldable pub set_missed : Packet → Bool → Packet
set_missed p is_missed = record p { is_missed = is_missed }

pub record ScreenedPacket : Type 0 where
  pub packet : Packet
  pub is_white : Bool

-- `none` is a nil `*big.Int`.
pub record MissedPacket : Type 0 where
  pub target_chain_id : Option ℤ
  pub source_chain_id : Option ℤ
  pub seq_num : ℕ
  pub height : ℕ
  pub txn_id : Bytes

-- `String` of a `*big.Int`, which may be nil.
unfoldable pub nullable_string : Option ℤ → Bytes
nullable_string none = codes "<nil>"
nullable_string (some z) = big_string z

-- The anonymous struct that `UnmarshalJSON` decodes the request of the db-service into.
pub record MissedPacketText : Type 0 where
  pub target_chain_id : Bytes
  pub source_chain_id : Bytes
  pub seq_num : ℕ
  pub height : ℕ
  pub txn_id : Bytes

-- `MissedPacket.UnmarshalJSON`, given what `json.Unmarshal` makes of the data. A chain id that is
-- no decimal number leaves a nil pointer, and no error.
unfoldable pub unmarshal_json : Result MissedPacketText → Result MissedPacket
unmarshal_json decoded = do
  m ← decoded
  ok (record {
    target_chain_id = set_string m.target_chain_id;
    source_chain_id = set_string m.source_chain_id;
    seq_num = m.seq_num;
    height = m.height;
    txn_id = m.txn_id;
  })

-- One of the packets.
abbrev pub IsAmong : Packet → List Packet → Type 0
IsAmong p [] = ⊥
IsAmong p (q ∷ l) = (p ≡ q) ⊎ IsAmong p l
