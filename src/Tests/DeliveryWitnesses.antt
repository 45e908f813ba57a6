-- ===== src/Tests/DeliveryWitnesses.antt =====
-- The way of a packet at a concrete store: it fails, is stored, and is sent again.
use mathlib.Core.Path.{subst}
use verulink.Base.{
  ◌≡◌, ◌≢◌, ◌⊎◌, inl, inr, refl, sym, ap, ◌∙◌, Bool, true, List, [], ◌∷◌, ◌++◌, none, some, Bytes,
  codes, eqb, eqb_iff, lookup, arith, ◌<◌, ◌^◌,
}
use verulink.Chain.{Packet, IsAmong}
use verulink.Chain.BigInt.{big_string, itoa, emit}
use verulink.Relay.Screener.{namespace}
use verulink.Relay.Process.{retry, sign_and_send}
use verulink.Relay.Process.Answers.{IsCalm}
use verulink.Relay.Process.Laws.{run, screened, process_ends_once}
use verulink.Ethereum.Client.{supports}
use verulink.Delivery.{
  System, starting, Moves, feed, process, keep_retry, retry_tick, here, next, to_retry, to_complete,
  retry_namespaces,
}
use verulink.Delivery.Manager.{PacketManager, dest_of, sent_packets}
use verulink.Delivery.Store.{Emits, IsReady, IsStored}
use verulink.Store.Json.{HasUtf8}
use verulink.Store.Bolt.{IsStorable}
use verulink.Delivery.Pruned.{WasPruned}
use verulink.Delivery.Accepted.{IsAccepted}
use verulink.Delivery.Recorded.{IsRecorded}
use verulink.Ethereum.Delivery.{ethereum_manager, Moves-keep_ethereum}
use verulink.Aleo.Delivery.{aleo_manager, Moves-keep_aleo}
use verulink.Tests.Journal.{journal, Write, created}
use verulink.Tests.Data.{pkt, codec, digest, failing, chains, encode_packet}
use verulink.Tests.Stores.{commits}

abbrev dests : List Bytes
dests = codes "1" ∷ []

-- The chain emits one packet.
abbrev Emitted : Packet → Type 0
Emitted p = p ≡ pkt

pkt_supported : supports dests (dest_of pkt) ≡ true
unfolding supports eqb big_string itoa emit
pkt_supported = refl

only_dest : (d : Bytes) → supports dests d ≡ true → codes "1" ≡ d
unfolding supports
only_dest d e = (eqb_iff (codes "1") d).0 (ground arith)

from_aleo : lookup (big_string pkt.source.chain_id) chains ≡ some (codes "aleo")
unfolding lookup eqb big_string itoa emit
from_aleo = refl

-- Every packet of the chain comes from the client's own.
sources :
    (p : Packet) → Emitted p → lookup (big_string p.source.chain_id) chains ≡ some (codes "aleo")
sources p e =
    subst (λ (q : Packet). lookup (big_string q.source.chain_id) chains ≡ some (codes "aleo"))
      (sym e) from_aleo

pkt_utf8 : HasUtf8 codec.valid_utf8 pkt
pkt_utf8 = record {
  source = refl;
  destination = refl;
  dest_token = refl;
  sender = refl;
  receiver = refl;
}

pkt_fits : IsStorable (encode_packet pkt)
pkt_fits = omega arith

alive : (w : Bool) → sign_and_send failing (screened pkt w) ≢ none
unfolding sign_and_send
alive w e = cc

failing-IsCalm : IsCalm failing
failing-IsCalm = record { signs = λ sp e. cc; sends = λ sp h s e. cc }

not_sent : (w : Bool) → sign_and_send failing (screened pkt w) ≡ some none → ⊥
unfolding sign_and_send
not_sent w e = cc

-- The buckets of a client, given its two prefixes.
abbrev buckets : Bytes → Bytes → List Write
buckets retry_prefix base_prefix =
    created namespace
    ∷ created (retry_prefix ++ codes "1")
    ∷ created (base_prefix ++ codes "1")
    ∷ []

-- Where the client has its buckets, the packet fails, is stored, and is sent again.
module _ (manager : PacketManager journal codec) where
  abbrev db : List Write
  db = buckets manager.retry_prefix manager.base_prefix

  emits : Emits journal codec manager dests Emitted
  emits = record {
    unmissed = λ p e. ap (λ (q : Packet). q.is_missed) e;
    word = λ p e. subst (λ (q : Packet). q.sequence < 2 ^ 64) (sym e) (omega arith);
    text = λ p e. (
      encode_packet p,
      (
        subst (λ q. HasUtf8 codec.valid_utf8 q) (sym e) pkt_utf8,
        refl,
        subst (λ q. IsStorable (encode_packet q)) (sym e) pkt_fits,
      ),
    );
    supported = λ p e. subst (λ q. supports dests (dest_of q) ≡ true) (sym e) pkt_supported;
    unique = λ p q e f d s. e ∙ sym f;
  }

  abbrev was_fed : System (List Write)
  was_fed = record (starting db) { flying = pkt ∷ []; fed = pkt ∷ [] }

  abbrev has_failed : System (List Write)
  has_failed = record was_fed {
    db = (run journal digest chains failing pkt db).db;
    flying = [];
    retries = to_retry (codes "aleo") (run journal digest chains failing pkt db).sent ++ [];
    completes = to_complete (codes "aleo") (run journal digest chains failing pkt db).sent ++ [];
    processed = (pkt, failing) ∷ [];
  }

  abbrev is_stored : System (List Write)
  is_stored = record has_failed { db = (manager.manage_retry pkt has_failed.db).1; retries = [] }

  abbrev sent_again : System (List Write)
  sent_again = record is_stored {
    db = (manager.retry_round (retry_namespaces manager.retry_prefix dests) 0 is_stored.db).1;
    flying =
        sent_packets
          (manager.retry_round (retry_namespaces manager.retry_prefix dests) 0 is_stored.db).0
        ++ [];
  }

  module _ (screener_there : journal.bucket db namespace ≡ some []) where
    failing_sent : (run journal digest chains failing pkt db).sent ≡ retry (codes "aleo") pkt ∷ []
    failing_sent =
        let (calm, w, shown, outcome) =
          process_ends_once journal digest chains failing pkt (codes "aleo") from_aleo db []
            screener_there refl alive in
        elim outcome [
          | inl (delivered, sent) ↦ absurd (not_sent w delivered)
          | inr (e, bad, sent) ↦ sent
        ]

    way :
        Moves journal codec manager digest chains
          (codes "aleo")
          dests
          Emitted
          (starting db)
          sent_again
    way =
        next
          (next
            (next (next here (feed pkt refl refl))
              (process failing (codes "aleo") [] pkt [] refl from_aleo failing-IsCalm refl))
            (keep_retry [] pkt [] (rw failing_sent (unfold eqb in refl)) refl))
          (retry_tick 0 refl)

    buckets-IsReady :
        journal.bucket db (manager.retry_prefix ++ codes "1") ≡ some []
        → journal.bucket db (manager.base_prefix ++ codes "1") ≡ some []
        → IsReady journal codec manager dests Emitted (λ d. []) db
    buckets-IsReady retry_there base_there = record {
      encoded = λ d e. (
        [],
        subst (λ c. journal.bucket db (manager.retry_prefix ++ c) ≡ some []) (only_dest d e)
            retry_there,
        tt,
      );
      of_dest = λ d. tt;
      screener = ([], screener_there);
      bases = λ d e. (
        [],
        subst (λ c. journal.bucket db (manager.base_prefix ++ c) ≡ some []) (only_dest d e)
            base_there,
      );
    }

ethereum_screener : journal.bucket (db (ethereum_manager journal codec)) namespace ≡ some []
unfolding eqb
ethereum_screener = refl

ethereum_ready :
    IsReady journal codec
      (ethereum_manager journal codec)
      dests
      Emitted
      (λ d. [])
      (db (ethereum_manager journal codec))
unfolding eqb
ethereum_ready = buckets-IsReady (ethereum_manager journal codec) ethereum_screener refl refl

Moves-keep_ethereum_example :
    let t : System (List Write) = sent_again (ethereum_manager journal codec) in
    IsAmong pkt t.flying
    ⊎ (IsAmong pkt t.retries
        ⊎ ((IsAmong pkt t.completes × IsAccepted pkt t.processed)
            ⊎ ((IsAmong pkt t.finished
                  × IsAccepted pkt t.processed
                  × (IsRecorded journal codec (ethereum_manager journal codec) pkt t.db
                      ⊎ WasPruned journal codec (ethereum_manager journal codec) pkt t))
                ⊎ IsStored journal codec (ethereum_manager journal codec) pkt t.db)))
Moves-keep_ethereum_example =
    Moves-keep_ethereum journal codec digest chains (codes "aleo") dests Emitted
      (emits (ethereum_manager journal codec)) sources commits (λ d. [])
      (db (ethereum_manager journal codec)) (sent_again (ethereum_manager journal codec)) pkt
      ethereum_ready (way (ethereum_manager journal codec) ethereum_screener) (inl refl)

aleo_screener : journal.bucket (db (aleo_manager journal codec)) namespace ≡ some []
unfolding eqb
aleo_screener = refl

aleo_ready :
    IsReady journal codec
      (aleo_manager journal codec)
      dests
      Emitted
      (λ d. [])
      (db (aleo_manager journal codec))
unfolding eqb
aleo_ready = buckets-IsReady (aleo_manager journal codec) aleo_screener refl refl

Moves-keep_aleo_example :
    let t : System (List Write) = sent_again (aleo_manager journal codec) in
    IsAmong pkt t.flying
    ⊎ (IsAmong pkt t.retries
        ⊎ ((IsAmong pkt t.completes × IsAccepted pkt t.processed)
            ⊎ ((IsAmong pkt t.finished
                  × IsAccepted pkt t.processed
                  × (IsRecorded journal codec (aleo_manager journal codec) pkt t.db
                      ⊎ WasPruned journal codec (aleo_manager journal codec) pkt t))
                ⊎ IsStored journal codec (aleo_manager journal codec) pkt t.db)))
Moves-keep_aleo_example =
    Moves-keep_aleo journal codec digest chains (codes "aleo") dests Emitted
      (emits (aleo_manager journal codec)) sources commits (λ d. [])
      (db (aleo_manager journal codec)) (sent_again (aleo_manager journal codec)) pkt aleo_ready
      (way (aleo_manager journal codec) aleo_screener) (inl refl)
