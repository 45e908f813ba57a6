-- ===== src/Delivery/Managed.antt =====
-- No packet that was fed is lost: it is on its way, or on a channel, or stored to be sent again, or
-- done with.
use mathlib.Core.Path.{subst}
use verulink.Base.{
  lookup, some, true, ℕ, ◌≡◌, ◌⊎◌, inl, inr, sym, List, [], ◌∷◌, ◌++◌, Bytes, All, All-append,
  All-without,
}
use verulink.Chain.{Packet, IsAmong}
use verulink.Store.Bolt.{Bolt}
use verulink.Store.Json.{Codec}
use verulink.Store.Ops.Laws.{Commits}
use verulink.Relay.Digest.{Digest}
use verulink.Delivery.Manager.{PacketManager, dest_of, sent_packets}
use verulink.Delivery.{
  retry_namespaces, starting, System, Move, Moves, feed, request, process, keep_retry,
  keep_completed, retry_tick, prune, here, next,
}
use verulink.Delivery.Store.{Emits, IsReady, IsStored, IsReady-Touches}
use verulink.Delivery.Retries.{manage_retry-IsReady, retry_round-IsReady}
use verulink.Store.Ops.{batch_delete}
use verulink.Ethereum.Client.{supports}
use verulink.Delivery.Pruned.{batch_delete-Touches}
use verulink.Chain.BigInt.{big_string}
use verulink.Relay.Process.Answers.{IsCalm-sign_and_send}
use verulink.Relay.Process.Laws.{screened}
use verulink.Delivery.Places.{
  on_its_way, to_retry_channel, to_complete_channel, to_send_again, done, moved, IsAmong-without,
  IsAmong-left, IsAmong-right, manage_completed-Touches,
}
use verulink.Delivery.Kept.{IsFlying, IsKept, feed-IsKept, request-IsKept, process-IsKept}

module _ (bolt : Bolt) (codec : Codec) (manager : PacketManager bolt codec) (digest : Digest)
    (chains : List (Bytes × Bytes)) (own : Bytes) (dests : List Bytes) (Emitted : Packet → Type 0)
    (emits : Emits bolt codec manager dests Emitted)
    (sources : (p : Packet) → Emitted p → lookup (big_string p.source.chain_id) chains ≡ some own)
    (commits : Commits bolt) where
  open bolt use {Db, bucket}

  All-IsFlying :
      (ps : List Packet)
      → All Emitted ps
      → All (IsFlying bolt codec manager digest chains own dests Emitted emits sources commits) ps
  All-IsFlying [] h = tt
  All-IsFlying (p ∷ ps) h = (inr h.0, All-IsFlying ps h.1)

  keep_retry-IsKept :
      (s : System Db) (xs : List Packet) (pkt : Packet) (ys : List Packet)
      → s.retries ≡ xs ++ pkt ∷ ys
      → IsKept bolt codec manager digest chains own dests Emitted emits sources commits s
      → IsKept bolt codec manager digest chains own dests Emitted emits sources commits
          (record s { db = (manager.manage_retry pkt s.db).1; retries = xs ++ ys })
  keep_retry-IsKept s xs pkt ys at k =
      let (em, rest) =
        All-without Emitted xs pkt ys (subst (λ l. All Emitted l) at k.retries_known) in
      let (after, ready, new, keeps) =
        manage_retry-IsReady bolt codec manager dests Emitted emits k.stored pkt s.db commits em
          k.ready in
      record {
        stored = after;
        ready = ready;
        flying_known = k.flying_known;
        retries_known = rest;
        completes_known = k.completes_known;
        kept = λ p m.
            let (emp, w) = k.kept p m in
            (
              emp,
              moved w (λ a. on_its_way a)
                  (λ a. elim (IsAmong-without p xs pkt ys (subst (λ l. IsAmong p l) at a)) [
                    | inl e ↦ to_send_again (subst (λ q. IsAmong q (after (dest_of q))) (sym e) new)
                    | inr left ↦ to_retry_channel left
                  ])
                  (λ a. to_complete_channel a)
                  (λ a. elim (keeps p emp a) [
                    | inl sent ↦ absurd sent
                    | inr still ↦ to_send_again still
                  ])
                  (λ a. done a),
            );
      }

  keep_completed-IsKept :
      (s : System Db) (xs : List Packet) (pkt : Packet) (ys : List Packet)
      → s.completes ≡ xs ++ pkt ∷ ys
      → IsKept bolt codec manager digest chains own dests Emitted emits sources commits s
      → IsKept bolt codec manager digest chains own dests Emitted emits sources commits (record s {
        db = (manager.manage_completed pkt s.db).1;
        completes = xs ++ ys;
        finished = pkt ∷ s.finished;
      })
  keep_completed-IsKept s xs pkt ys at k =
      let (em, rest) =
        All-without Emitted xs pkt ys (subst (λ l. All Emitted l) at k.completes_known) in
      let (es, there) = k.ready.bases (dest_of pkt) (emits.supported pkt em) in
      record {
        stored = k.stored;
        ready =
            IsReady-Touches bolt codec manager dests Emitted k.stored
              (manager.base_prefix ++ dest_of pkt) s.db (manager.manage_completed pkt s.db).1
              (manager.base_apart (dest_of pkt))
              (manage_completed-Touches bolt codec manager pkt s.db es there) k.ready;
        flying_known = k.flying_known;
        retries_known = k.retries_known;
        completes_known = rest;
        kept = λ p m.
            let (emp, w) = k.kept p m in
            (
              emp,
              moved w (λ a. on_its_way a) (λ a. to_retry_channel a)
                  (λ a. elim (IsAmong-without p xs pkt ys (subst (λ l. IsAmong p l) at a)) [
                    | inl e ↦ done (inl e)
                    | inr left ↦ to_complete_channel left
                  ])
                  (λ a. to_send_again a) (λ a. done (inr a)),
            );
      }

  retry_tick-IsKept :
      (s : System Db) (index : ℕ)
      → IsKept bolt codec manager digest chains own dests Emitted emits sources commits s
      → IsKept bolt codec manager digest chains own dests Emitted emits sources commits (record s {
        db = (manager.retry_round (retry_namespaces manager.retry_prefix dests) index s.db).1;
        flying =
            sent_packets
              (manager.retry_round (retry_namespaces manager.retry_prefix dests) index s.db).0
            ++ s.flying;
      })
  retry_tick-IsKept s index k =
      let sent : List Packet =
        sent_packets
          (manager.retry_round (retry_namespaces manager.retry_prefix dests) index s.db).0 in
      let (after, ready, all, keeps) =
        retry_round-IsReady bolt codec manager dests Emitted emits k.stored index s.db k.ready in
      record {
        stored = after;
        ready = ready;
        flying_known =
            All-append
              (IsFlying bolt codec manager digest chains own dests Emitted emits sources commits)
              sent s.flying (All-IsFlying sent all) k.flying_known;
        retries_known = k.retries_known;
        completes_known = k.completes_known;
        kept = λ p m.
            let (emp, w) = k.kept p m in
            (
              emp,
              moved w (λ a. on_its_way (IsAmong-right p sent s.flying a)) (λ a. to_retry_channel a)
                  (λ a. to_complete_channel a)
                  (λ a. elim (keeps p emp a) [
                    | inl early ↦ on_its_way (IsAmong-left p sent s.flying early)
                    | inr still ↦ to_send_again still
                  ])
                  (λ a. done a),
            );
      }

  prune-IsKept :
      (s : System Db) (d key : Bytes)
      → supports dests d ≡ true
      → IsKept bolt codec manager digest chains own dests Emitted emits sources commits s
      → IsKept bolt codec manager digest chains own dests Emitted emits sources commits (record s {
        db = (batch_delete bolt (manager.base_prefix ++ d) key s.db).1;
        pruned = (d, key) ∷ s.pruned;
      })
  prune-IsKept s d key known k =
      let (es, there) = k.ready.bases d known in
      record {
        stored = k.stored;
        ready =
            IsReady-Touches bolt codec manager dests Emitted k.stored (manager.base_prefix ++ d)
              s.db (batch_delete bolt (manager.base_prefix ++ d) key s.db).1 (manager.base_apart d)
              (batch_delete-Touches bolt codec manager d key s.db es there) k.ready;
        flying_known = k.flying_known;
        retries_known = k.retries_known;
        completes_known = k.completes_known;
        kept = λ p m.
            let (em, w) = k.kept p m in
            (
              em,
              moved w (λ a. on_its_way a) (λ a. to_retry_channel a) (λ a. to_complete_channel a)
                  (λ a. to_send_again a) (λ a. done a),
            );
      }

  Move-IsKept :
      {s t : System Db}
      → Move bolt codec manager digest chains own dests Emitted s t
      → IsKept bolt codec manager digest chains own dests Emitted emits sources commits s
      → IsKept bolt codec manager digest chains own dests Emitted emits sources commits t
  Move-IsKept {s} (feed pkt em e) k = rw e (
      feed-IsKept bolt codec manager digest chains own dests Emitted emits sources commits s pkt em
        k)
  Move-IsKept {s} (request pkt missed e) k = rw e (
      request-IsKept bolt codec manager digest chains own dests Emitted emits sources commits s pkt
        missed k)
  Move-IsKept {s} (process services name xs pkt ys at known calm e) k = rw e (
      process-IsKept bolt codec manager digest chains own dests Emitted emits sources commits s
        services name xs pkt ys at known (λ w. IsCalm-sign_and_send services (screened pkt w) calm)
        k)
  Move-IsKept {s} (keep_retry xs pkt ys at e) k = rw e (keep_retry-IsKept s xs pkt ys at k)
  Move-IsKept {s} (keep_completed xs pkt ys at e) k = rw e (keep_completed-IsKept s xs pkt ys at k)
  Move-IsKept {s} (retry_tick index e) k = rw e (retry_tick-IsKept s index k)
  Move-IsKept {s} (prune d key known e) k = rw e (prune-IsKept s d key known k)

  pub Moves-IsKept :
      {s t : System Db}
      → Moves bolt codec manager digest chains own dests Emitted s t
      → IsKept bolt codec manager digest chains own dests Emitted emits sources commits s
      → IsKept bolt codec manager digest chains own dests Emitted emits sources commits t
  Moves-IsKept here k = k
  Moves-IsKept (next r step) k = Move-IsKept step (Moves-IsKept r k)

  pub starting-IsKept :
      (stored : Bytes → List Packet) (db : Db)
      → IsReady bolt codec manager dests Emitted stored db
      → IsKept bolt codec manager digest chains own dests Emitted emits sources commits
          (starting db)
  starting-IsKept stored db ready = record {
    stored = stored;
    ready = ready;
    flying_known = tt;
    retries_known = tt;
    completes_known = tt;
    kept = λ q m. absurd m;
  }

  -- Every packet that was fed is on its way, on the channel of the failed or of the delivered ones,
  -- or done with, or its text stands in the retry namespace of its destination.
  pub Moves-keep :
      (stored : Bytes → List Packet) (db : Db) (t : System Db) (p : Packet)
      → IsReady bolt codec manager dests Emitted stored db
      → Moves bolt codec manager digest chains own dests Emitted (starting db) t
      → IsAmong p t.fed
      → IsAmong p t.flying
        ⊎ (IsAmong p t.retries
            ⊎ (IsAmong p t.completes ⊎ (IsAmong p t.finished ⊎ IsStored bolt codec manager p t.db)))
  Moves-keep stored db t p ready moves fed =
      let k : IsKept bolt codec manager digest chains own dests Emitted emits sources commits t =
        Moves-IsKept moves (starting-IsKept stored db ready) in
      let (em, w) = k.kept p fed in
      let (es, there, texts) = k.ready.encoded (dest_of p) (emits.supported p em) in
      elim w [
        | on_its_way a ↦ inl a
        | to_retry_channel a ↦ inr (inl a)
        | to_complete_channel a ↦ inr (inr (inl a))
        | done a ↦ inr (inr (inr (inl a)))
        | to_send_again a ↦ inr (inr (inr (inr (k.stored (dest_of p), es, there, texts, a))))
      ]
