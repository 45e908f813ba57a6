-- ===== src/Relay/Process.antt =====
-- attestor/chainService/relay/relays.go: what happens to one packet, and the loops that feed it.
pub mod Answers
pub mod Laws
pub mod Workers
pub mod Touches
pub mod Requests
use verulink.Base.{
  ℕ, zero, suc, ◌+◌, ◌-◌, Bool, true, false, List, [], ◌∷◌, ◌++◌, Bytes, codes, lookup, Option,
  none, some, Result, ok, err, panics, Error, time_out, invalid_signature, already_relayed,
  packet_not_found, message, joined, or_panic, ◌>>=◌, if◌then◌else◌, ltb,
}
use verulink.Chain.{Packet, ScreenedPacket, MissedPacket, set_missed, nullable_string}
use verulink.Chain.BigInt.{big_string}
use verulink.Store.Bolt.{Bolt}
use verulink.Relay.Digest.{Digest}
use verulink.Relay.Screener.{screen, screener_store_white_status}

-- A packet on one of the two channels of a chain, by the chain's name.
pub data Delivery : Type 0 where
  retry : Bytes → Packet → Delivery
  complete : Bytes → Packet → Delivery

-- The signer and the collector of the `relay` struct, as its interfaces.
pub record Services : Type 0 where
  pub hash_and_sign_screened_packet : ScreenedPacket → Result (Bytes × Bytes)
  pub send_to_collector : ScreenedPacket → Bytes → Bytes → Result (Unit {0})

-- What `processPacket` sends, what it leaves in the store, and whether it panics.
pub record Processed {ℓ} (Db : Type ℓ) : Type ℓ where
  pub sent : List Delivery
  pub db : Db
  pub crashed : Bool

-- `err` after `SendToCollector`: that of a duplicate is cleared. `none` stands for a panic.
abbrev pub send_error : Result (Unit {0}) → Option (Option Error)
send_error (ok u) = some none
send_error (err already_relayed) = some none
send_error (err e) = some (some e)
send_error panics = none

-- `err` when `processPacket` returns, from signing and then delivering.
unfoldable pub sign_and_send : Services → ScreenedPacket → Option (Option Error)
sign_and_send services sp = elim (services.hash_and_sign_screened_packet sp) [
  | ok signed ↦ send_error (services.send_to_collector sp signed.0 signed.1)
  | err e ↦ some (some e)
  | panics ↦ none
]

abbrev pub flat : Option (Option Error) → Option Error
flat none = none
flat (some failure) = failure

abbrev pub is_none {ℓ} : {A : Type ℓ} → Option A → Bool
is_none none = true
is_none (some a) = false

module _ (bolt : Bolt) (digest : Digest) where
  open bolt use {Db}

  -- The deferred function: packets of the collector are done with; a failed one goes to the retry
  -- channel, and its screening status is kept; a delivered one goes to the complete channel. The
  -- send on the retry channel and the storing of the status, which comes after it, are one step.
  unfoldable pub after_processing : Bytes → Packet → Bool → Option Error → Db → List Delivery × Db
  after_processing name pkt is_white failure db = if pkt.is_missed then ([], db) else elim failure [
    | none ↦ (complete name pkt ∷ [], db)
    | some e ↦
        let (stored, after) = screener_store_white_status bolt digest pkt is_white db in
        (retry name pkt ∷ [], after)
  ]

  -- A panic of the screener finds `isWhite` false and no error yet.
  unfoldable pub screened_then : Services → Bytes → Packet → Result Bool → Db → Processed Db
  unfolding after_processing sign_and_send
  screened_then services name pkt (ok is_white) db =
      let outcome = sign_and_send services (record { packet = pkt; is_white = is_white }) in
      let (sent, after) = after_processing name pkt is_white (flat outcome) db in
      record { sent = sent; db = after; crashed = is_none outcome }
  screened_then services name pkt _ db =
      let (sent, after) = after_processing name pkt false none db in
      record { sent = sent; db = after; crashed = true }

  -- The map gives the names of the chains by their ids. An unknown source is a nil client, whose
  -- method panics before anything is deferred.
  unfoldable pub process_packet : List (Bytes × Bytes) → Services → Packet → Db → Processed Db
  unfolding screened_then
  process_packet chain_id_to_chain services pkt db =
      elim (lookup (big_string pkt.source.chain_id) chain_id_to_chain) [
        | none ↦ record { sent = []; db = db; crashed = true }
        | some name ↦
            let (is_white, after) = screen bolt digest pkt db in
            screened_then services name pkt is_white after
      ]

abbrev pub sent_or_logged : Result Packet → Result (List Packet)
sent_or_logged (ok pkt) = ok (set_missed pkt true ∷ [])
sent_or_logged (err e) = ok []
sent_or_logged panics = panics

-- One round of `consumeMissedPackets`: the packet that is sent on, if its chain has it. The map
-- gives the `GetMissedPacket` of the chain clients.
unfoldable pub consume_missed_packet :
    List (Bytes × (MissedPacket → Result Packet)) → MissedPacket → Result (List Packet)
consume_missed_packet chains missed = do
  get_missed_packet ← or_panic (lookup (nullable_string missed.source_chain_id) chains)
  sent_or_logged (get_missed_packet missed)
