-- ===== src/Store/BaseSeq/History.antt =====
-- The life of a base-sequence-number namespace (attestor/chainService/store/db.go): deliveries are
-- recorded while `PruneBaseSeqNum` scans and its goroutines delete, in any order. More may happen
-- at once here than in the program, which waits for the goroutines of a scan before the next one.
pub mod Sound
use mathlib.Core.Path.{subst}
use verulink.Base.{
  Bool, Result-cases, append-nil, ℕ, ◌+◌, ◌<◌, ◌≤◌, ◌≡◌, ◌≢◌, ◌⊎◌, inl, inr, refl, sym, ap, ◌∙◌,
  List, [], ◌∷◌, ◌++◌, map, take, some, Bytes, ok, arith, All, All-append, ◌>>=◌, ltb, Bool-cases,
  All-without, ok-injective,
}
use verulink.Store.Key.{put_uint64}
use verulink.Store.Key.Laws.{IsWord}
use verulink.Store.Bolt.{Bolt}
use verulink.Store.Bolt.Entries.{Entry}
use verulink.Store.Ops.{retrieve_n_key_values_from_first, batch_delete}
use verulink.Store.Ops.Laws.{Settles-batch_delete, Holds-self}
use verulink.Store.Db.{
  SeqHeightRanges, PruneScan, prune_scan, delete_keys, prune_base_seq_num, store_base_seq_num,
}
use verulink.Store.BaseSeq.Encoding.{SeqHeight, encode, IsAscending, HasSeq, insert_seq}
use verulink.Store.BaseSeq.Refinement.{IsBase, store_base_seq_num_refines}
use verulink.Store.BaseSeq.Gap.{passed, HasSeq-ge}
use verulink.Store.BaseSeq.Prune.{prune_scan_here, scan_result}
use verulink.Store.BaseSeq.Recorded.{
  remove_seq, erase-map-encode, All-remove_seq, IsAscending-remove_seq, HasSeq-remove_seq,
  HasSeq-removed, HasSeq-insert_seq, HasSeq-inserted, HasSeq-take, frontier, HasSeq-frontier,
  frontier_ge, passed_lt-frontier, HasSeq-IsWord,
}

-- A number of a list.
abbrev pub Among : ℕ → List ℕ → Type 0
Among n [] = ⊥
Among n (x ∷ xs) = (n ≡ x) ⊎ Among n xs

-- The packet of the number was recorded at first, or has been delivered since.
abbrev pub IsDelivered : List SeqHeight → List ℕ → ℕ → Type 0
IsDelivered initial delivered n = HasSeq n initial ⊎ Among n delivered

-- The store, the keys that goroutines have still to delete, and the numbers whose packets have
-- been delivered since the start.
pub record State (Db : Type 0) : Type 0 where
  pub db : Db
  pub pending : List Bytes
  pub delivered : List ℕ

module _ (bolt : Bolt) (ns : Bytes) where
  open bolt use {Db, bucket}

  pub data Step (s t : State Db) : Type 0 where
    deliver :
        (n h : ℕ)
        → IsWord n
        → IsWord h
        → t ≡ record {
          db = (store_base_seq_num bolt ns n h s.db).1;
          pending = s.pending;
          delivered = n ∷ s.delivered;
        }
        → Step s t
    scan :
        (found : PruneScan)
        → (retrieve_n_key_values_from_first bolt ns 1000 s.db >>= prune_scan) ≡ ok found
        → t ≡ record s { pending = found.to_delete_keys ++ s.pending }
        → Step s t
    delete :
        (xs : List Bytes) (k : Bytes) (ys : List Bytes)
        → s.pending ≡ xs ++ k ∷ ys
        → t ≡ record s { db = (batch_delete bolt ns k s.db).1; pending = xs ++ ys }
        → Step s t

  pub data Steps (s : State Db) : State Db → Type 0 where
    here : Steps s s
    next : {t u : State Db} → Steps s t → Step t u → Steps s u

  -- What `prune_base_seq_num` does is a scan and then the deletion of each key in turn.
  delete_keys-Steps :
      (ks : List Bytes) (s : State Db) (db : Db) (delivered : List ℕ)
      → Steps s (record { db = db; pending = ks; delivered = delivered })
      → Steps s (record { db = delete_keys bolt ns ks db; pending = []; delivered = delivered })
  unfolding delete_keys
  delete_keys-Steps [] s db delivered r = r
  delete_keys-Steps (k ∷ ks) s db delivered r =
      delete_keys-Steps ks s (batch_delete bolt ns k db).1 delivered
        (next r (delete [] k ks refl refl))

  -- A call of `PruneBaseSeqNum` that returns is a run of these steps: a scan, and then the deletion
  -- of every key that it found, which leaves none pending.
  pub prune_base_seq_num-Steps :
      (db : Db) (delivered : List ℕ) (r : SeqHeightRanges × Bool)
      → (prune_base_seq_num bolt ns db).0 ≡ ok r
      → Steps
          (record { db = db; pending = []; delivered = delivered })
          (record { db = (prune_base_seq_num bolt ns db).1; pending = []; delivered = delivered })
  unfolding prune_base_seq_num
  prune_base_seq_num-Steps db delivered r e =
      elim (Result-cases (retrieve_n_key_values_from_first bolt ns 1000 db >>= prune_scan)) [
        | inr (inl (x, failed)) ↦
            let q : _ ≡ ok r = rw (prune_base_seq_num, failed) at e in absurd (cc)
        | inr (inr failed) ↦ let q : _ ≡ ok r = rw (prune_base_seq_num, failed) at e in absurd (cc)
        | inl (found, run) ↦
            rw (prune_base_seq_num, run)
              (delete_keys-Steps found.to_delete_keys _ db delivered
                (next here (scan found run (rw append-nil))))
      ]
