-- ===== src/Store/BaseSeq/Pending.antt =====
-- The keys that the goroutines of `PruneBaseSeqNum` (attestor/chainService/store/db.go) have still to
-- delete, and what a scan and a deletion do to the recorded numbers.
use mathlib.Core.Path.{subst}
use verulink.Base.{
  ℕ, ◌<◌, ◌≤◌, ◌≡◌, ◌⊎◌, inl, inr, refl, sym, ap, ◌∙◌, List, [], ◌∷◌, map, take, some, Bytes, ok,
  arith, All, ◌>>=◌, ok-injective,
}
use verulink.Store.Key.{put_uint64}
use verulink.Store.Key.Laws.{IsWord}
use verulink.Store.Bolt.{Bolt}
use verulink.Store.Ops.{retrieve_n_key_values_from_first, batch_delete}
use verulink.Store.Ops.Laws.{Settles-batch_delete, Holds-self}
use verulink.Store.Db.{PruneScan, prune_scan}
use verulink.Store.BaseSeq.Encoding.{SeqHeight, encode, HasSeq}
use verulink.Store.BaseSeq.Refinement.{IsBase}
use verulink.Store.BaseSeq.Gap.{passed, HasSeq-ge}
use verulink.Store.BaseSeq.Prune.{prune_scan_here, scan_result}
use verulink.Store.BaseSeq.Recorded.{
  remove_seq, erase-map-encode, All-remove_seq, IsAscending-remove_seq, HasSeq-take, frontier,
  HasSeq-frontier, frontier_ge, passed_lt-frontier, HasSeq-IsWord,
}

-- A key to delete is that of a number below the frontier.
abbrev pub IsPending : ℕ → Bytes → Type 0
IsPending f k = (j : ℕ) × (k ≡ put_uint64 j) × IsWord j × (j < f)

pub IsPending-le : (f g : ℕ) (ks : List Bytes) → f ≤ g → All (IsPending f) ks → All (IsPending g) ks
IsPending-le f g [] le h = tt
IsPending-le f g (k ∷ ks) le (((j, e, w, lt)), h) =
    ((j, e, w, omega arith), IsPending-le f g ks le h)

pub IsPending-map :
    (f : ℕ) (ns : List ℕ)
    → IsWord f
    → All (λ (n : ℕ). n < f) ns
    → All (IsPending f) (map put_uint64 ns)
IsPending-map f [] w h = tt
IsPending-map f (n ∷ ns) w h = ((n, refl, omega (arith, h.0), h.0), IsPending-map f ns w h.1)

module _ (bolt : Bolt) (ns : Bytes) where
  open bolt use {Db}

  pub IsBase-delete :
      (db : Db) (l : List SeqHeight) (j : ℕ)
      → IsWord j
      → IsBase bolt db ns l
      → (IsBase bolt (batch_delete bolt ns (put_uint64 j) db).1 ns (remove_seq j l))
        ⊎ (IsBase bolt (batch_delete bolt ns (put_uint64 j) db).1 ns l)
  IsBase-delete db l j w base =
      elim (Settles-batch_delete bolt ns db (map encode l) base.stored (put_uint64 j)) [
        | inl (after, e, held) ↦ inl (
            rw e (record {
              stored =
                  Holds-self bolt db ns _ after held ∙ ap some (erase-map-encode j l w base.words);
              words = All-remove_seq j l base.words;
              ascending = IsAscending-remove_seq j l base.ascending;
            }))
        | inr (x, e) ↦ inr (rw e base)
      ]

  -- A scan passes numbers that are recorded up to a new frontier.
  pub scan_finds :
      (db : Db) (l : List SeqHeight) (t : ℕ) (found : PruneScan)
      → IsBase bolt db ns l
      → HasSeq t l
      → (retrieve_n_key_values_from_first bolt ns 1000 db >>= prune_scan) ≡ ok found
      → (f : ℕ) × HasSeq f l
        × ((n : ℕ) → t ≤ n → n ≤ f → HasSeq n l)
        × All (IsPending f) found.to_delete_keys
  unfolding scan_result
  scan_finds db [] t found base m e = absurd m
  scan_finds db (p ∷ l) t found base m e =
      let f : ℕ = frontier p (take 999 l) in
      let lo : p.0 ≤ t = HasSeq-ge p l t base.ascending m in
      let recorded : (n : ℕ) → p.0 ≤ n → n ≤ f → HasSeq n (p ∷ l) =
        λ n le ge. HasSeq-take n 1000 (p ∷ l) (HasSeq-frontier p (take 999 l) n le ge) in
      let top : HasSeq f (p ∷ l) = recorded f (frontier_ge p (take 999 l)) (omega arith) in
      let word : IsWord f = HasSeq-IsWord f (p ∷ l) base.words top in
      let keys : map put_uint64 (passed p (take 999 l)) ≡ found.to_delete_keys =
        ap (λ (x : PruneScan). x.to_delete_keys)
          (ok-injective (sym (prune_scan_here bolt ns db p l base) ∙ e)) in
      (
        f,
        top,
        λ n le ge. recorded n (omega arith) ge,
        subst (λ ks. All (IsPending f) ks) keys
            (IsPending-map f (passed p (take 999 l)) word (passed_lt-frontier p (take 999 l))),
      )
