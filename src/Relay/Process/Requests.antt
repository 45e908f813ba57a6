-- ===== src/Relay/Process/Requests.antt =====
-- The packets that the db-service asks for: `UnmarshalJSON` of attestor/chainService/chain/types.go
-- reads a request, and `consumeMissedPackets` and `processPacket` of
-- attestor/chainService/relay/relays.go answer it.
use verulink.Base.{
  Error, err, inl, inr, Option-cases, Result-cases, ℕ, ◌≡◌, refl, ap, ◌∙◌, or_panic, true, List, [],
  ◌∷◌, Bytes, Option, none, some, Result, ok, panics, lookup, ◌>>=◌,
}
use verulink.Chain.{
  Packet, MissedPacket, MissedPacketText, unmarshal_json, set_missed, nullable_string,
}
use verulink.Chain.BigInt.{ℤ, big_string, set_string-big_string}
use verulink.Store.Bolt.{Bolt}
use verulink.Store.Bolt.Entries.{Entry}
use verulink.Relay.Digest.{Digest}
use verulink.Relay.Screener.{namespace, screen}
use verulink.Relay.Process.{Services, consume_missed_packet, sent_or_logged}
use verulink.Relay.Process.Laws.{run, process_missed_sends_nothing}

abbrev pub Clients : Type 0
Clients = List (Bytes × (MissedPacket → Result Packet))

-- A request with its chain ids in decimal text, and what it stands for.
abbrev pub request_text : ℤ → ℤ → ℕ → ℕ → Bytes → MissedPacketText
request_text target source seq_num height txn_id = record {
  target_chain_id = big_string target;
  source_chain_id = big_string source;
  seq_num = seq_num;
  height = height;
  txn_id = txn_id;
}

abbrev pub request : ℤ → ℤ → ℕ → ℕ → Bytes → MissedPacket
request target source seq_num height txn_id = record {
  target_chain_id = some target;
  source_chain_id = some source;
  seq_num = seq_num;
  height = height;
  txn_id = txn_id;
}

-- The packets that are sent on for the data of a request.
abbrev pub answered : Clients → MissedPacketText → Result (List Packet)
answered clients text = do missed ← unmarshal_json (ok text); consume_missed_packet clients missed

-- What comes of a request, told by the client that is asked and by its answer.
pub data IsAnswer (found : Option (MissedPacket → Result Packet)) (missed : MissedPacket)
    (answer : Result (List Packet)) : Type 0 where
  no_client : found ≡ none → answer ≡ panics → IsAnswer found missed answer
  sent_on :
      (get_missed_packet : MissedPacket → Result Packet) (pkt : Packet)
      → found ≡ some get_missed_packet
      → get_missed_packet missed ≡ ok pkt
      → answer ≡ ok (record pkt { is_missed = true } ∷ [])
      → IsAnswer found missed answer
  only_logged :
      (get_missed_packet : MissedPacket → Result Packet) (e : Error)
      → found ≡ some get_missed_packet
      → get_missed_packet missed ≡ err e
      → answer ≡ ok []
      → IsAnswer found missed answer
  client_panics :
      (get_missed_packet : MissedPacket → Result Packet)
      → found ≡ some get_missed_packet
      → get_missed_packet missed ≡ panics
      → answer ≡ panics
      → IsAnswer found missed answer

asked_lem :
    (clients : Clients) (target source : ℤ) (seq_num height : ℕ) (txn_id : Bytes)
    → answered clients (request_text target source seq_num height txn_id) ≡ (
        or_panic (lookup (big_string source) clients) >>= λ get_missed_packet.
        sent_or_logged (get_missed_packet (request target source seq_num height txn_id)))
unfolding unmarshal_json consume_missed_packet nullable_string
asked_lem clients target source seq_num height txn_id =
    rw (set_string-big_string target, set_string-big_string source) refl

-- A request whose chain ids stand in decimal text is put to the client of its source chain, with
-- the chain ids, the number, the height and the transaction that it names. A packet that this
-- client finds is sent on, marked as missed; where it returns an error nothing is sent on; and
-- where it panics, or no client has the id, there is a panic.
pub answered-IsAnswer :
    (clients : Clients) (target source : ℤ) (seq_num height : ℕ) (txn_id : Bytes)
    → IsAnswer
        (lookup (big_string source) clients)
        (request target source seq_num height txn_id)
        (answered clients (request_text target source seq_num height txn_id))
unfolding set_missed
answered-IsAnswer clients target source seq_num height txn_id =
    let missed : MissedPacket = request target source seq_num height txn_id in
    let asked = asked_lem clients target source seq_num height txn_id in
    elim (Option-cases (lookup (big_string source) clients)) [
      | inl absent ↦ no_client absent (asked ∙ rw absent refl)
      | inr (get, found) ↦ elim (Result-cases (get missed)) [
        | inl (pkt, e) ↦ sent_on get pkt found e (asked ∙ rw (found, e) refl)
        | inr (inl (x, e)) ↦ only_logged get x found e (asked ∙ rw (found, e) refl)
        | inr (inr e) ↦ client_panics get found e (asked ∙ rw (found, e) refl)
      ]
    ]

-- A packet that the db-service asks for and the client of its source chain finds is sent on once,
-- marked as missed; and processing it puts it on no channel and leaves the store as the screening
-- left it, whatever the services answer. The chain of the packet has a client, and the screener its
-- bucket.
pub answered_once :
    (bolt : Bolt) (digest : Digest) (names : List (Bytes × Bytes)) (services : Services)
    (clients : Clients) (target source : ℤ) (seq_num height : ℕ) (txn_id : Bytes)
    (get_missed_packet : MissedPacket → Result Packet) (pkt : Packet) (name : Bytes) (db : bolt.Db)
    (es : List Entry)
    → lookup (big_string source) clients ≡ some get_missed_packet
    → get_missed_packet (request target source seq_num height txn_id) ≡ ok pkt
    → lookup (big_string pkt.source.chain_id) names ≡ some name
    → bolt.bucket db namespace ≡ some es
    → (answered clients (request_text target source seq_num height txn_id)
        ≡ ok (set_missed pkt true ∷ []))
      × ((run bolt digest names services (set_missed pkt true) db).sent ≡ [])
      × ((run bolt digest names services (set_missed pkt true) db).db
          ≡ (screen bolt digest (set_missed pkt true) db).1)
unfolding set_missed
answered_once bolt digest names services clients target source seq_num height txn_id
      get_missed_packet pkt name db es found answer known there =
    let asked : answered clients (request_text target source seq_num height txn_id)
        ≡ sent_or_logged (get_missed_packet (request target source seq_num height txn_id)) =
      asked_lem clients target source seq_num height txn_id ∙ rw found refl in
    let (nothing, same) =
      process_missed_sends_nothing bolt digest names services (set_missed pkt true) name known db es
        there refl in
    (asked ∙ ap sent_or_logged answer, nothing, same)
