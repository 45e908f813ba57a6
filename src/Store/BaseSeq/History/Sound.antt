-- ===== src/Store/BaseSeq/History/Sound.antt =====
-- No number is passed before its packet has been delivered, however deliveries, scans and deletions
-- interleave.
use mathlib.Core.Path.{subst}
use verulink.Base.{
  ℕ, ◌<◌, ◌≤◌, ◌≡◌, inl, inr, refl, List, [], ◌∷◌, ◌++◌, Bytes, ok, arith, All, All-append, ◌>>=◌,
  ltb, Bool-cases, All-without,
}
use verulink.Store.Key.Laws.{IsWord}
use verulink.Store.Bolt.{Bolt}
use verulink.Store.Ops.{retrieve_n_key_values_from_first, batch_delete}
use verulink.Store.Db.{PruneScan, prune_scan, store_base_seq_num}
use verulink.Store.BaseSeq.Encoding.{SeqHeight, IsAscending, HasSeq, insert_seq}
use verulink.Store.BaseSeq.Refinement.{IsBase, store_base_seq_num_refines}
use verulink.Store.BaseSeq.Gap.{HasSeq-ge}
use verulink.Store.BaseSeq.Recorded.{
  remove_seq, HasSeq-remove_seq, HasSeq-removed, HasSeq-insert_seq, HasSeq-inserted,
}
use verulink.Store.BaseSeq.History.{
  IsDelivered, State, Step, Steps, deliver, scan, delete, here, next,
}
use verulink.Store.BaseSeq.Pending.{IsPending, IsPending-le, IsBase-delete, scan_finds}

head_le :
    (n : ℕ) (l : List SeqHeight)
    → IsAscending l
    → HasSeq n l
    → (q : SeqHeight) × (k : List SeqHeight) × (l ≡ q ∷ k) × (q.0 ≤ n)
head_le n [] asc m = absurd m
head_le n (q ∷ k) asc m = (q, k, refl, HasSeq-ge q k n asc m)

module _ (bolt : Bolt) (ns : Bytes) where
  open bolt use {Db}

  module _ (initial : List SeqHeight) (first : ℕ) where
    -- All numbers below the frontier, which is recorded, are delivered; only they are deleted.
    record IsSound (db : Db) (pending : List Bytes) (delivered : List ℕ) : Type 0 where
      recorded : List SeqHeight
      base : IsBase bolt db ns recorded
      top : ℕ
      top_recorded : HasSeq top recorded
      below : (n : ℕ) → first ≤ n → n < top → IsDelivered initial delivered n
      all_known : (n : ℕ) → HasSeq n recorded → IsDelivered initial delivered n
      waiting : All (IsPending top) pending

    IsSound-deliver :
        (db : Db) (pending : List Bytes) (delivered : List ℕ) (n h : ℕ)
        → IsWord n
        → IsWord h
        → IsSound db pending delivered
        → IsSound (store_base_seq_num bolt ns n h db).1 pending (n ∷ delivered)
    IsSound-deliver db pending delivered n h wn wh s =
        let more : (m : ℕ)
            → IsDelivered initial delivered m
            → IsDelivered initial (n ∷ delivered) m =
          λ m d. elim d [ inl old ↦ inl old | inr late ↦ inr (inr late) ] in
        elim (store_base_seq_num_refines bolt db ns s.recorded s.base n h wn wh) [
          | inl (after, e, base, others) ↦ rw e (record {
            recorded = insert_seq n h s.recorded;
            base = base;
            top = s.top;
            top_recorded = HasSeq-insert_seq s.top n h s.recorded s.top_recorded;
            below = λ m lo hi. more m (s.below m lo hi);
            all_known = λ m has. elim (HasSeq-inserted m n h s.recorded has) [
              | inl same ↦ inr (inl same)
              | inr old ↦ more m (s.all_known m old)
            ];
            waiting = s.waiting;
          })
          | inr (x, e) ↦ rw e (record {
            recorded = s.recorded;
            base = s.base;
            top = s.top;
            top_recorded = s.top_recorded;
            below = λ m lo hi. more m (s.below m lo hi);
            all_known = λ m has. more m (s.all_known m has);
            waiting = s.waiting;
          })
        ]

    IsSound-delete :
        (db : Db) (xs : List Bytes) (k : Bytes) (ys : List Bytes) (delivered : List ℕ)
        → IsSound db (xs ++ k ∷ ys) delivered
        → IsSound (batch_delete bolt ns k db).1 (xs ++ ys) delivered
    IsSound-delete db xs k ys delivered s =
        let ((j, e, w, lt), rest) = All-without (IsPending s.top) xs k ys s.waiting in
        rw e (elim (IsBase-delete bolt ns db s.recorded j w s.base) [
          | inl base ↦ record {
            recorded = remove_seq j s.recorded;
            base = base;
            top = s.top;
            top_recorded =
                HasSeq-remove_seq s.top j s.recorded (λ q. omega (arith, q)) s.top_recorded;
            below = s.below;
            all_known = λ m has. s.all_known m (HasSeq-removed m j s.recorded has);
            waiting = rest;
          }
          | inr base ↦ record {
            recorded = s.recorded;
            base = base;
            top = s.top;
            top_recorded = s.top_recorded;
            below = s.below;
            all_known = s.all_known;
            waiting = rest;
          }
        ])

    IsSound-scan :
        (db : Db) (pending : List Bytes) (delivered : List ℕ) (found : PruneScan)
        → (retrieve_n_key_values_from_first bolt ns 1000 db >>= prune_scan) ≡ ok found
        → IsSound db pending delivered
        → IsSound db (found.to_delete_keys ++ pending) delivered
    IsSound-scan db pending delivered found e s =
        let (f, f_recorded, full, keys) =
          scan_finds bolt ns db s.recorded s.top found s.base s.top_recorded e in
        elim (Bool-cases (ltb s.top f)) [
          | inl lt ↦ record {
            recorded = s.recorded;
            base = s.base;
            top = f;
            top_recorded = f_recorded;
            below = λ n lo hi. elim (Bool-cases (ltb n s.top)) [
              | inl old ↦ s.below n lo (ground arith)
              | inr new ↦ s.all_known n (full n (ground arith) (omega arith))
            ];
            all_known = s.all_known;
            waiting =
                All-append (IsPending f) found.to_delete_keys pending keys
                  (IsPending-le s.top f pending (ground arith) s.waiting);
          }
          | inr ge ↦ record {
            recorded = s.recorded;
            base = s.base;
            top = s.top;
            top_recorded = s.top_recorded;
            below = s.below;
            all_known = s.all_known;
            waiting =
                All-append (IsPending s.top) found.to_delete_keys pending
                  (IsPending-le f s.top found.to_delete_keys (ground arith) keys) s.waiting;
          }
        ]

    abbrev IsSoundState : State Db → Type 0
    IsSoundState s = IsSound s.db s.pending s.delivered

    Step-IsSound : {s t : State Db} → Step bolt ns s t → IsSoundState s → IsSoundState t
    Step-IsSound {s} (deliver n h wn wh e) sound =
        rw e (IsSound-deliver s.db s.pending s.delivered n h wn wh sound)
    Step-IsSound {s} (scan found run e) sound =
        rw e (IsSound-scan s.db s.pending s.delivered found run sound)
    Step-IsSound {s} (delete xs k ys e f) sound = rw f (
        IsSound-delete s.db xs k ys s.delivered (subst (λ ks. IsSound s.db ks s.delivered) e sound))

    Steps-IsSound : {s t : State Db} → Steps bolt ns s t → IsSoundState s → IsSoundState t
    Steps-IsSound here sound = sound
    Steps-IsSound (next r step) sound = Step-IsSound step (Steps-IsSound r sound)

  IsSound-start :
      (db : Db) (p : SeqHeight) (l : List SeqHeight)
      → IsBase bolt db ns (p ∷ l)
      → IsSound (p ∷ l) p.0 db [] []
  IsSound-start db p l base = record {
    recorded = p ∷ l;
    base = base;
    top = p.0;
    top_recorded = inl refl;
    below = λ n lo hi. absurd (omega arith);
    all_known = λ n has. inl has;
    waiting = tt;
  }

  -- From a namespace with an ascending, non-empty list of numbers, however deliveries are recorded,
  -- scans run and their keys are deleted, and whether or not the commits succeed: the namespace
  -- keeps an ascending list that is not empty, and every number from the first one on that lies
  -- below all that are recorded is that of a packet that was recorded at first or has been
  -- delivered since.
  pub Steps-delivered :
      (db : Db) (p : SeqHeight) (l : List SeqHeight) (t : State Db)
      → IsBase bolt db ns (p ∷ l)
      → Steps bolt ns (record { db = db; pending = []; delivered = [] }) t
      → (q : SeqHeight) × (k : List SeqHeight) × IsBase bolt t.db ns (q ∷ k)
        × ((n : ℕ) → p.0 ≤ n → n < q.0 → IsDelivered (p ∷ l) t.delivered n)
  Steps-delivered db p l t base steps =
      let s : IsSoundState (p ∷ l) p.0 t =
        Steps-IsSound (p ∷ l) p.0 steps (IsSound-start db p l base) in
      let (q, k, e, le) = head_le s.top s.recorded s.base.ascending s.top_recorded in
      (q, k, subst (λ r. IsBase bolt t.db ns r) e s.base, λ n lo hi. s.below n lo (omega arith))
