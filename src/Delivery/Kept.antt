-- ===== src/Delivery/Kept.antt =====
-- Feeding and processing lose no packet.
use mathlib.Core.Path.{subst}
use verulink.Base.{
  ◌≡◌, ◌≢◌, ◌⊎◌, inl, inr, refl, sym, ◌∙◌, eqb_refl, Bool, true, false, List, [], ◌∷◌, ◌++◌, Bytes,
  some, none, lookup, All, All-append, All-without,
}
use verulink.Chain.{Packet, IsAmong}
use verulink.Chain.BigInt.{big_string}
use verulink.Store.Bolt.{Bolt}
use verulink.Store.Bolt.Entries.{Entry}
use verulink.Store.Json.{Codec}
use verulink.Store.Ops.Laws.{Commits}
use verulink.Relay.Digest.{Digest}
use verulink.Relay.Screener.{namespace}
use verulink.Relay.Process.{Services, retry, complete, sign_and_send}
use verulink.Relay.Process.Laws.{run, screened, process_ends_once, process_missed_sends_nothing}
use verulink.Relay.Process.Touches.{process-Touches}
use verulink.Delivery.Manager.{PacketManager, dest_of}
use verulink.Delivery.{System, to_retry, to_complete}
use verulink.Delivery.Store.{Emits, IsReady, IsReady-Touches}
use verulink.Delivery.Places.{
  Somewhere, on_its_way, to_retry_channel, to_complete_channel, to_send_again, done, moved,
  IsAmong-without, IsAmong-left, IsAmong-right,
}

module _ (bolt : Bolt) (codec : Codec) (manager : PacketManager bolt codec) (digest : Digest)
    (chains : List (Bytes × Bytes)) (own : Bytes) (dests : List Bytes) (Emitted : Packet → Type 0)
    (emits : Emits bolt codec manager dests Emitted)
    (sources : (p : Packet) → Emitted p → lookup (big_string p.source.chain_id) chains ≡ some own)
    (commits : Commits bolt) where
  open bolt use {Db, bucket}

  abbrev pub IsFlying : Packet → Type 0
  IsFlying p = (p.is_missed ≡ true) ⊎ Emitted p

  pub record IsKept (s : System Db) : Type 0 where
    pub stored : Bytes → List Packet
    pub ready : IsReady bolt codec manager dests Emitted stored s.db
    pub flying_known : All IsFlying s.flying
    pub retries_known : All Emitted s.retries
    pub completes_known : All Emitted s.completes
    pub kept : (p : Packet) → IsAmong p s.fed → Emitted p × Somewhere (stored (dest_of p)) s p

  pub feed-IsKept :
      (s : System Db) (pkt : Packet)
      → Emitted pkt
      → IsKept s
      → IsKept (record s { flying = pkt ∷ s.flying; fed = pkt ∷ s.fed })
  feed-IsKept s pkt em k = record {
    stored = k.stored;
    ready = k.ready;
    flying_known = (inr em, k.flying_known);
    retries_known = k.retries_known;
    completes_known = k.completes_known;
    kept = λ p m. elim m [
      | inl e ↦ (subst (λ q. Emitted q) (sym e) em, on_its_way (inl e))
      | inr old ↦
          let (em, w) = k.kept p old in
          (
            em,
            moved w (λ a. on_its_way (inr a)) (λ a. to_retry_channel a) (λ a. to_complete_channel a)
                (λ a. to_send_again a) (λ a. done a),
          )
    ];
  }

  pub request-IsKept :
      (s : System Db) (pkt : Packet)
      → pkt.is_missed ≡ true
      → IsKept s
      → IsKept (record s { flying = pkt ∷ s.flying })
  request-IsKept s pkt missed k = record {
    stored = k.stored;
    ready = k.ready;
    flying_known = (inl missed, k.flying_known);
    retries_known = k.retries_known;
    completes_known = k.completes_known;
    kept = λ p m.
        let (em, w) = k.kept p m in
        (
          em,
          moved w (λ a. on_its_way (inr a)) (λ a. to_retry_channel a) (λ a. to_complete_channel a)
              (λ a. to_send_again a) (λ a. done a),
        );
  }

  -- What is sent for a packet that is processed.
  module _ (services : Services) (name : Bytes) (pkt : Packet) (db : Db)
      (known : lookup (big_string pkt.source.chain_id) chains ≡ some name)
      (alive : (w : Bool) → sign_and_send services (screened pkt w) ≢ none)
      (screener : (es : List Entry) × (bucket db namespace ≡ some es)) where
    sent_cases :
        IsFlying pkt
        → ((pkt.is_missed ≡ true) × ((run bolt digest chains services pkt db).sent ≡ []))
          ⊎ (Emitted pkt
              × (((run bolt digest chains services pkt db).sent ≡ complete name pkt ∷ [])
                  ⊎ ((run bolt digest chains services pkt db).sent ≡ retry name pkt ∷ [])))
    sent_cases (inl missed) =
        let (es, there) = screener in
        let (nothing, same) =
          process_missed_sends_nothing bolt digest chains services pkt name known db es there
            missed in
        inl (missed, nothing)
    sent_cases (inr em) =
        let (es, there) = screener in
        let (calm, w, shown, outcome) =
          process_ends_once bolt digest chains services pkt name known db es there
            (emits.unmissed pkt em) alive in
        elim outcome [
          | inl (delivered, sent) ↦ inr (em, inl sent)
          | inr (e, bad, sent) ↦ inr (em, inr sent)
        ]

  -- A packet leaves for the channels, on which these are new.
  sent-IsKept :
      (s : System Db) (xs : List Packet) (pkt : Packet) (ys : List Packet) (db : Db)
      (to_r to_c : List Packet) (noted : List (Packet × Services))
      → s.flying ≡ xs ++ pkt ∷ ys
      → (k : IsKept s) → IsReady bolt codec manager dests Emitted k.stored db
      → All Emitted to_r
      → All Emitted to_c
      → (Emitted pkt → IsAmong pkt to_r ⊎ IsAmong pkt to_c)
      → IsKept (record s {
        db = db;
        flying = xs ++ ys;
        retries = to_r ++ s.retries;
        completes = to_c ++ s.completes;
        processed = noted;
      })
  sent-IsKept s xs pkt ys db to_r to_c noted at k ready rs cs leaves = record {
    stored = k.stored;
    ready = ready;
    flying_known =
        (All-without IsFlying xs pkt ys (subst (λ l. All IsFlying l) at k.flying_known)).1;
    retries_known = All-append Emitted to_r s.retries rs k.retries_known;
    completes_known = All-append Emitted to_c s.completes cs k.completes_known;
    kept = λ p m.
        let (em, w) = k.kept p m in
        (
          em,
          moved w
              (λ a. elim (IsAmong-without p xs pkt ys (subst (λ l. IsAmong p l) at a)) [
                | inr rest ↦ on_its_way rest
                | inl e ↦ elim (leaves (subst (λ q. Emitted q) e em)) [
                  | inl r ↦
                      to_retry_channel
                        (IsAmong-left p to_r s.retries (subst (λ q. IsAmong q to_r) (sym e) r))
                  | inr c ↦
                      to_complete_channel
                        (IsAmong-left p to_c s.completes (subst (λ q. IsAmong q to_c) (sym e) c))
                ]
              ])
              (λ a. to_retry_channel (IsAmong-right p to_r s.retries a))
              (λ a. to_complete_channel (IsAmong-right p to_c s.completes a)) (λ a. to_send_again a)
              (λ a. done a),
        );
  }

  pub process-IsKept :
      (s : System Db) (services : Services) (name : Bytes) (xs : List Packet) (pkt : Packet)
      (ys : List Packet)
      → s.flying ≡ xs ++ pkt ∷ ys
      → lookup (big_string pkt.source.chain_id) chains ≡ some name
      → ((w : Bool) → sign_and_send services (screened pkt w) ≢ none)
      → IsKept s
      → IsKept (record s {
        db = (run bolt digest chains services pkt s.db).db;
        flying = xs ++ ys;
        retries = to_retry own (run bolt digest chains services pkt s.db).sent ++ s.retries;
        completes = to_complete own (run bolt digest chains services pkt s.db).sent ++ s.completes;
        processed = (pkt, services) ∷ s.processed;
      })
  process-IsKept s services name xs pkt ys at known alive k =
      let db : Db = (run bolt digest chains services pkt s.db).db in
      let noted : List (Packet × Services) = (pkt, services) ∷ s.processed in
      let own_name : Emitted pkt → name ≡ own =
        λ em. let same : some name ≡ some own = sym known ∙ sources pkt em in cc in
      let (pkt_known, rest) =
        All-without IsFlying xs pkt ys (subst (λ l. All IsFlying l) at k.flying_known) in
      let (es, there) = k.ready.screener in
      let ready : IsReady bolt codec manager dests Emitted k.stored db =
        IsReady-Touches bolt codec manager dests Emitted k.stored namespace s.db db
          manager.screener_apart
          (process-Touches bolt digest chains services pkt name known s.db es there alive)
          k.ready in
      elim (sent_cases services name pkt s.db known alive k.ready.screener pkt_known) [
        | inl (missed, sent) ↦ rw sent (
            sent-IsKept s xs pkt ys db [] [] noted at k ready tt tt
              λ em. let fresh : pkt.is_missed ≡ false = emits.unmissed pkt em in absurd (cc))
        | inr (em, inl sent) ↦
            rw (sent, own_name em, eqb_refl own)
              (sent-IsKept s xs pkt ys db [] (pkt ∷ []) noted at k ready tt (em, tt)
                λ e. inr (inl refl))
        | inr (em, inr sent) ↦
            rw (sent, own_name em, eqb_refl own)
              (sent-IsKept s xs pkt ys db (pkt ∷ []) [] noted at k ready (em, tt) tt
                λ e. inl (inl refl))
      ]
