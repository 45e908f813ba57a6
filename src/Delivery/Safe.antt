-- ===== src/Delivery/Safe.antt =====
-- However the steps of a packet's way interleave, what is done with was accepted, and is recorded or
-- was pruned.
use mathlib.Core.Path.{subst}
use verulink.Base.{
  ◌≡◌, sym, some, lookup, [], ◌∷◌, ◌++◌, ◌⊎◌, inl, inr, List, Bytes, All, All-without,
}
use verulink.Chain.{Packet, IsAmong}
use verulink.Store.Bolt.{Bolt}
use verulink.Store.Json.{Codec}
use verulink.Store.Ops.Laws.{Commits}
use verulink.Relay.Digest.{Digest}
use verulink.Relay.Screener.{namespace}
use verulink.Relay.Process.Touches.{process-Touches}
use verulink.Delivery.Manager.{PacketManager, dest_of}
use verulink.Delivery.{
  starting, System, Move, Moves, feed, request, process, keep_retry, keep_completed, retry_tick,
  prune, to_complete, here, next,
}
use verulink.Delivery.Store.{Emits, IsReady, IsStored, eqb-prefix}
use verulink.Delivery.Recorded.{
  IsRecorded, IsRecorded-Touches, manage_completed-IsRecorded, manage_retry-IsRecorded,
  retry_round-IsRecorded,
}
use verulink.Chain.BigInt.{big_string}
use verulink.Relay.Process.Answers.{IsCalm-sign_and_send}
use verulink.Relay.Process.Laws.{run, screened}
use verulink.Delivery.Places.{IsAmong-with}
use verulink.Delivery.Pruned.{WasPruned, batch_delete-IsRecorded}
use verulink.Delivery.Accepted.{IsAccepted, IsAccepted-later, to_complete-IsAccepted}
use verulink.Delivery.Kept.{IsKept}
use verulink.Delivery.Managed.{Moves-IsKept, starting-IsKept, Moves-keep}

module _ (bolt : Bolt) (codec : Codec) (manager : PacketManager bolt codec) (digest : Digest)
    (chains : List (Bytes × Bytes)) (own : Bytes) (dests : List Bytes) (Emitted : Packet → Type 0)
    (emits : Emits bolt codec manager dests Emitted)
    (sources : (p : Packet) → Emitted p → lookup (big_string p.source.chain_id) chains ≡ some own)
    (commits : Commits bolt) where
  open bolt use {Db, bucket}

  -- Whatever is done with is recorded, unless pruning has deleted its number.
  abbrev AllRecorded : System Db → Type 0
  AllRecorded s =
      (q : Packet)
      → IsAmong q s.finished
      → IsRecorded bolt codec manager q s.db ⊎ WasPruned bolt codec manager q s

  either : {A B C : Type 0} → A ⊎ B → (A → C) → C ⊎ B
  either (inl a) f = inl (f a)
  either (inr b) f = inr b

  Move-AllRecorded :
      {s t : System Db}
      → Move bolt codec manager digest chains own dests Emitted s t
      → IsKept bolt codec manager digest chains own dests Emitted emits sources commits s
      → AllRecorded s
      → AllRecorded t
  Move-AllRecorded {s} (feed pkt em e) k h = rw e h
  Move-AllRecorded {s} (request pkt missed e) k h = rw e h
  Move-AllRecorded {s} (process services name xs pkt ys at known calm e) k h =
      let (es, there) = k.ready.screener in
      rw e λ q m. either (h q m) (
        IsRecorded-Touches bolt codec manager q namespace s.db _
          (manager.screener_base_apart (dest_of q))
          (process-Touches bolt digest chains services pkt name known s.db es there
            λ w. IsCalm-sign_and_send services (screened pkt w) calm))
  Move-AllRecorded {s} (keep_retry xs pkt ys at e) k h =
      let (em, rest) =
        All-without Emitted xs pkt ys (subst (λ l. All Emitted l) at k.retries_known) in
      rw e λ q m. either (h q m) (
        manage_retry-IsRecorded bolt codec manager dests Emitted emits commits k.stored pkt s.db em
          k.ready q)
  Move-AllRecorded {s} (keep_completed xs pkt ys at e) k h =
      let (em, rest) =
        All-without Emitted xs pkt ys (subst (λ l. All Emitted l) at k.completes_known) in
      let (es, there) = k.ready.bases (dest_of pkt) (emits.supported pkt em) in
      rw e λ q m. elim m [
        | inl same ↦
            inl (
              manage_completed-IsRecorded bolt codec manager pkt s.db es commits there q (inl same))
        | inr old ↦
            either (h q old) λ r.
              manage_completed-IsRecorded bolt codec manager pkt s.db es commits there q (inr r)
      ]
  Move-AllRecorded {s} (retry_tick index e) k h = rw e λ q m. either (h q m) (
      retry_round-IsRecorded bolt codec manager dests Emitted emits commits k.stored index s.db
        k.ready q)
  Move-AllRecorded {s} (prune d key known e) k h =
      let (es, there) = k.ready.bases d known in
      rw e λ q m. elim (h q m) [
        | inr was ↦ inr (inr was)
        | inl r ↦
            elim (batch_delete-IsRecorded bolt codec manager d key s.db es there q
              (eqb-prefix manager.base_prefix d (dest_of q)) r) [
                | inl gone ↦ inr (inl gone)
                | inr still ↦ inl still
              ]
      ]

  -- Whatever was delivered was accepted.
  abbrev AllAccepted : System Db → Type 0
  AllAccepted s =
      (q : Packet) → IsAmong q s.completes ⊎ IsAmong q s.finished → IsAccepted q s.processed

  IsAmong-split :
      (p : Packet) (xs ys : List Packet) → IsAmong p (xs ++ ys) → IsAmong p xs ⊎ IsAmong p ys
  IsAmong-split p [] ys m = inr m
  IsAmong-split p (x ∷ xs) ys (inl e) = inl (inl e)
  IsAmong-split p (x ∷ xs) ys (inr m) = elim (IsAmong-split p xs ys m) [
    | inl a ↦ inl (inr a)
    | inr b ↦ inr b
  ]

  Move-AllAccepted :
      {s t : System Db}
      → Move bolt codec manager digest chains own dests Emitted s t
      → IsKept bolt codec manager digest chains own dests Emitted emits sources commits s
      → AllAccepted s
      → AllAccepted t
  Move-AllAccepted {s} (feed pkt em e) k h = rw e h
  Move-AllAccepted {s} (request pkt missed e) k h = rw e h
  Move-AllAccepted {s} (process services name xs pkt ys at known calm e) k h =
      let (es, there) = k.ready.screener in
      rw e λ q m. elim m [
        | inr old ↦ IsAccepted-later q s.processed pkt services (h q (inr old))
        | inl c ↦
            elim (IsAmong-split q (to_complete own (run bolt digest chains services pkt s.db).sent)
              s.completes c) [
                | inr old ↦ IsAccepted-later q s.processed pkt services (h q (inl old))
                | inl new ↦
                    to_complete-IsAccepted bolt digest chains own services name pkt s.db es
                      s.processed known there calm q new
              ]
      ]
  Move-AllAccepted {s} (keep_retry xs pkt ys at e) k h = rw e h
  Move-AllAccepted {s} (keep_completed xs pkt ys at e) k h = rw e λ q m. h q (elim m [
    | inl c ↦ inl (subst (λ l. IsAmong q l) (sym at) (IsAmong-with q xs pkt ys (inr c)))
    | inr (inl same) ↦ inl (subst (λ l. IsAmong q l) (sym at) (IsAmong-with q xs pkt ys (inl same)))
    | inr (inr old) ↦ inr old
  ])
  Move-AllAccepted {s} (retry_tick index e) k h = rw e h
  Move-AllAccepted {s} (prune d key known e) k h = rw e h

  Moves-AllAccepted :
      (stored : Bytes → List Packet) (db : Db)
      → IsReady bolt codec manager dests Emitted stored db
      → {t : System Db} → Moves bolt codec manager digest chains own dests Emitted (starting db) t
      → AllAccepted t
  Moves-AllAccepted stored db ready here = λ q m. elim m [ inl a ↦ absurd a | inr a ↦ absurd a ]
  Moves-AllAccepted stored db ready (next r step) =
      Move-AllAccepted step
        (Moves-IsKept bolt codec manager digest chains own dests Emitted emits sources commits r (
          starting-IsKept bolt codec manager digest chains own dests Emitted emits sources commits
            stored db ready))
        (Moves-AllAccepted stored db ready r)

  Moves-AllRecorded :
      (stored : Bytes → List Packet) (db : Db)
      → IsReady bolt codec manager dests Emitted stored db
      → {t : System Db} → Moves bolt codec manager digest chains own dests Emitted (starting db) t
      → AllRecorded t
  Moves-AllRecorded stored db ready here = λ q m. absurd m
  Moves-AllRecorded stored db ready (next r step) =
      Move-AllRecorded step
        (Moves-IsKept bolt codec manager digest chains own dests Emitted emits sources commits r (
          starting-IsKept bolt codec manager digest chains own dests Emitted emits sources commits
            stored db ready))
        (Moves-AllRecorded stored db ready r)

  -- Where a packet that was fed can be: on its way, or on the channel of the failed ones; accepted,
  -- and on the channel of the delivered ones; accepted, done with, and recorded unless its number was
  -- pruned; or stored to be sent again.
  abbrev pub IsSafe : Packet → System Db → Type 0
  IsSafe p t =
      IsAmong p t.flying
      ⊎ (IsAmong p t.retries
          ⊎ ((IsAmong p t.completes × IsAccepted p t.processed)
              ⊎ ((IsAmong p t.finished
                    × IsAccepted p t.processed
                    × (IsRecorded bolt codec manager p t.db ⊎ WasPruned bolt codec manager p t))
                  ⊎ IsStored bolt codec manager p t.db)))

  pub Moves-IsSafe :
      (stored : Bytes → List Packet) (db : Db) (t : System Db) (p : Packet)
      → IsReady bolt codec manager dests Emitted stored db
      → Moves bolt codec manager digest chains own dests Emitted (starting db) t
      → IsAmong p t.fed
      → IsSafe p t
  Moves-IsSafe stored db t p ready moves fed =
      elim (Moves-keep bolt codec manager digest chains own dests Emitted emits sources commits
        stored db t p ready moves fed) [
          | inl a ↦ inl a
          | inr (inl a) ↦ inr (inl a)
          | inr (inr (inl a)) ↦
              inr (inr (inl (a, Moves-AllAccepted stored db ready moves p (inl a))))
          | inr (inr (inr (inl a))) ↦ inr (
              inr (
                inr (
                  inl (
                    a,
                    Moves-AllAccepted stored db ready moves p (inr a),
                    Moves-AllRecorded stored db ready moves p a,
                  ))))
          | inr (inr (inr (inr a))) ↦ inr (inr (inr (inr a)))
        ]
