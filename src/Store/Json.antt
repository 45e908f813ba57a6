-- ===== src/Store/Json.antt =====
-- JSON text of packets: `json.Marshal` and `json.Unmarshal` of Go's library, as parameters.
use verulink.Base.{◌≡◌, Bytes, Bool, true, false, Result, ok}
use verulink.Chain.{Packet, set_missed}
use verulink.Store.Bolt.{IsStorable}

-- The strings of a packet are valid UTF-8, given the test of `utf8.ValidString`.
pub record HasUtf8 (valid_utf8 : Bytes → Bool) (p : Packet) : Type 0 where
  pub source : valid_utf8 p.source.address ≡ true
  pub destination : valid_utf8 p.destination.address ≡ true
  pub dest_token : valid_utf8 p.message.dest_token_address ≡ true
  pub sender : valid_utf8 p.message.sender_address ≡ true
  pub receiver : valid_utf8 p.message.receiver_address ≡ true

pub record Codec : Type 0 where
  pub marshal : Packet → Result Bytes
  pub unmarshal : Bytes → Result Packet
  pub valid_utf8 : Bytes → Bool
  -- The field `isMissed` is not exported, so its text is not written and it reads as false. Strings
  -- that are not valid UTF-8 are not written as they are.
  pub unmarshal-marshal :
      (p : Packet) (b : Bytes)
      → HasUtf8 valid_utf8 p
      → marshal p ≡ ok b
      → unmarshal b ≡ ok (set_missed p false)

-- The text of a packet that is read back from it, and fits into the store.
abbrev pub IsTextOf : Codec → Packet → Bytes → Type 0
IsTextOf codec p b = HasUtf8 codec.valid_utf8 p × (codec.marshal p ≡ ok b) × IsStorable b
