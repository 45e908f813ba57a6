-- ===== src/Store/BaseSeq/Prune.antt =====
-- `PruneBaseSeqNum` finds the first gap and deletes what lies below its start.
use native.Mathlib.Nat.{mod-eq_of_lt}
use mathlib.Core.Path.{subst}
use verulink.Base.{
  ℕ, zero, suc, ◌+◌, ◌%◌, ◌^◌, ◌<◌, ◌≡◌, inl, inr, refl, sym, ap, ◌∙◌, Bool, true, List, [], ◌∷◌,
  ◌++◌, append-nil, append_assoc, ◌==◌, arith, if◌then◌else◌, Bool-cases, map, take, drop, length,
  some, Bytes, ok, All, ◌>>=◌, if◌then◌else◌,
}
use verulink.Store.Key.{put_uint64}
use verulink.Store.Key.Laws.{get_uint64-put_uint64}
use verulink.Store.Bolt.{Bolt}
use verulink.Store.Bolt.Entries.{Entry}
use verulink.Store.Ops.{retrieve_n_key_values_from_first, batch_delete}
use verulink.Store.Ops.Laws.{
  Holds, Holds-unchanged, Holds-trans, erase_head, Holds-self, Commits, batch_delete_commits,
}
use verulink.Store.Db.{
  SeqHeightRanges, PruneScan, prune_loop, prune_scan, delete_keys, prune_base_seq_num,
}
use verulink.Store.BaseSeq.Encoding.{SeqHeight, encode, AreWords, IsAscending, stored_height-encode}
use verulink.Store.BaseSeq.Refinement.{IsBase}
use verulink.Store.BaseSeq.Gap.{gap, passed, IsFirstGap, gap-IsFirstGap}

unfoldable pub scan_result : SeqHeightRanges × Bool → List Bytes → PruneScan
scan_result (ranges, found) keys = record {
  ranges = ranges;
  should_fetch = found;
  to_delete_keys = keys;
}

prune_loop_round :
    (p q : SeqHeight) (walk : List Entry) (del : List Bytes)
    → p.0 < q.0
    → AreWords q
    → prune_loop (encode q ∷ walk) (put_uint64 p.0) p.0 p.1 del ≡ (
        if q.0 == p.0 + 1
        then prune_loop walk (put_uint64 q.0) q.0 q.1 (del ++ put_uint64 p.0 ∷ [])
        else ok (record {
          ranges = record {
            start_seq_num = p.0;
            end_seq_num = q.0;
            start_height = p.1;
            end_height = q.1;
          };
          should_fetch = true;
          to_delete_keys = del;
        }))
unfolding prune_loop
prune_loop_round p q walk del lt w =
    let next : (p.0 + 1) % 2 ^ 64 ≡ p.0 + 1 = mod-eq_of_lt (omega arith) in
    rw (get_uint64-put_uint64 q.0 w.0, stored_height-encode q.1 w.1, next) (ground arith)

prune_loop-gap :
    (p : SeqHeight) (l : List SeqHeight) (del : List Bytes)
    → IsAscending (p ∷ l)
    → All AreWords l
    → prune_loop (map encode l) (put_uint64 p.0) p.0 p.1 del
      ≡ ok (scan_result (gap p l) (del ++ map put_uint64 (passed p l)))
unfolding scan_result gap passed
prune_loop-gap p [] del asc w = unfold prune_loop in rw append-nil
prune_loop-gap p (q ∷ l) del asc w =
    prune_loop_round p q (map encode l) del asc.0 w.0 ∙ elim (Bool-cases (q.0 == p.0 + 1)) [
      | inl e ↦ rw e (prune_loop-gap q l (del ++ put_uint64 p.0 ∷ []) asc.1 w.1 ∙ rw append_assoc)
      | inr ne ↦ rw (ne, append-nil)
    ]

IsAscending-take :
    (k : ℕ) (p : SeqHeight) (l : List SeqHeight) → IsAscending (p ∷ l) → IsAscending (p ∷ take k l)
IsAscending-take zero p l asc = tt
IsAscending-take (suc k) p [] asc = tt
IsAscending-take (suc k) p (q ∷ l) asc = (asc.0, IsAscending-take k q l asc.1)

IsAscending-tail : (p : SeqHeight) (l : List SeqHeight) → IsAscending (p ∷ l) → IsAscending l
IsAscending-tail p [] asc = tt
IsAscending-tail p (q ∷ l) asc = asc.1

IsAscending-drop : (k : ℕ) (l : List SeqHeight) → IsAscending l → IsAscending (drop k l)
IsAscending-drop zero l asc = asc
IsAscending-drop (suc k) [] asc = tt
IsAscending-drop (suc k) (p ∷ l) asc = IsAscending-drop k l (IsAscending-tail p l asc)

All-take : (k : ℕ) (l : List SeqHeight) → All AreWords l → All AreWords (take k l)
All-take zero l w = tt
All-take (suc k) [] w = tt
All-take (suc k) (p ∷ l) w = (w.0, All-take k l w.1)

All-drop : (k : ℕ) (l : List SeqHeight) → All AreWords l → All AreWords (drop k l)
All-drop zero l w = w
All-drop (suc k) [] w = tt
All-drop (suc k) (p ∷ l) w = All-drop k l w.1

take-map : (k : ℕ) (l : List SeqHeight) → take k (map encode l) ≡ map encode (take k l)
take-map zero l = refl
take-map (suc k) [] = refl
take-map (suc k) (p ∷ l) = rw (take-map k l)

-- What is not deleted begins at the start of the gap.
drop-passed :
    (k : ℕ) (p : SeqHeight) (l : List SeqHeight)
    → (gap p (take k l)).1 ≡ true
    → (rest : List SeqHeight) × (drop (length (passed p (take k l))) (p ∷ l)
        ≡ ((gap p (take k l)).0.start_seq_num, (gap p (take k l)).0.start_height) ∷ rest)
unfolding gap passed
drop-passed zero p l h = cc
drop-passed (suc k) p [] h = cc
drop-passed (suc k) p (q ∷ l) h = elim (Bool-cases (q.0 == p.0 + 1)) [
  | inl e ↦ let (rest, same) = drop-passed k q l (rw e at h) in (rest, rw e same)
  | inr ne ↦ (q ∷ l, rw ne)
]

-- How many pairs are deleted.
abbrev pub passed_count : SeqHeight → List SeqHeight → ℕ
passed_count p l = length (passed p (take 999 l))

prune_scan-gap :
    (p : SeqHeight) (l : List SeqHeight)
    → IsAscending (p ∷ l)
    → All AreWords (p ∷ l)
    → prune_scan (take 1000 (map encode (p ∷ l)))
      ≡ ok (scan_result (gap p (take 999 l)) (map put_uint64 (passed p (take 999 l))))
unfolding prune_scan
prune_scan-gap p l asc w =
    rw (take-map 999 l, get_uint64-put_uint64 p.0 w.0.0, stored_height-encode p.1 w.0.1)
      (prune_loop-gap p (take 999 l) [] (IsAscending-take 999 p l asc) (All-take 999 l w.1))

ok-injective : (x y : SeqHeightRanges × Bool) → ok x ≡ ok y → x ≡ y
ok-injective x y e = cc

module _ (bolt : Bolt) (ns : Bytes) where
  open bolt use {Db, bucket}

  delete_keys-drop :
      (k : ℕ) (p : SeqHeight) (l : List SeqHeight) (db : Db)
      → Commits bolt
      → bucket db ns ≡ some (map encode (p ∷ l))
      → Holds bolt db ns
          (map encode (drop (length (passed p (take k l))) (p ∷ l)))
          (delete_keys bolt ns (map put_uint64 (passed p (take k l))) db)
  unfolding delete_keys passed
  delete_keys-drop zero p l db commits here = Holds-unchanged bolt db ns _ here
  delete_keys-drop (suc k) p [] db commits here = Holds-unchanged bolt db ns _ here
  delete_keys-drop (suc k) p (q ∷ l) db commits here = elim (Bool-cases (q.0 == p.0 + 1)) [
    | inl e ↦
        let rest : List Entry = map encode (q ∷ l) in
        let mid : Db = (batch_delete bolt ns (put_uint64 p.0) db).1 in
        let first : Holds bolt db ns rest mid =
          rw erase_head at
            (batch_delete_commits bolt ns (put_uint64 p.0) db (encode p ∷ rest) commits here) in
        rw e (
          Holds-trans bolt db mid _ ns rest _ first
            (delete_keys-drop k q l mid commits (Holds-self bolt db ns rest mid first)))
    | inr ne ↦ rw ne (Holds-unchanged bolt db ns _ here)
  ]

  module _ (db : Db) (p : SeqHeight) (l : List SeqHeight) (base : IsBase bolt db ns (p ∷ l)) where
    pub prune_scan_here :
        (retrieve_n_key_values_from_first bolt ns 1000 db >>= prune_scan)
        ≡ ok (scan_result (gap p (take 999 l)) (map put_uint64 (passed p (take 999 l))))
    unfolding retrieve_n_key_values_from_first
    prune_scan_here = rw (◌>>=◌, base.stored) (prune_scan-gap p l base.ascending base.words)

    -- The range that is returned is the first gap among the first thousand numbers, whether or not
    -- the deletions succeed.
    pub prune_base_seq_num_range : (prune_base_seq_num bolt ns db).0 ≡ ok (gap p (take 999 l))
    unfolding prune_base_seq_num scan_result
    prune_base_seq_num_range = rw (prune_base_seq_num, prune_scan_here)

    -- Where a namespace with an ascending, non-empty list of numbers has a gap reported, it is the
    -- first one among its first thousand numbers: its ends are recorded, no number inside it is,
    -- and every number from the base to its start is.
    pub prune-IsFirstGap :
        (r : SeqHeightRanges)
        → (prune_base_seq_num bolt ns db).0 ≡ ok (r, true)
        → IsFirstGap p (take 999 l) r
    prune-IsFirstGap r e =
        let found : gap p (take 999 l) ≡ (r, true) =
          ok-injective _ _ (sym prune_base_seq_num_range ∙ e) in
        let asc : IsAscending (p ∷ take 999 l) = IsAscending-take 999 p l base.ascending in
        subst (λ s. IsFirstGap p (take 999 l) s) (ap (λ (x : SeqHeightRanges × Bool). x.0) found)
          (gap-IsFirstGap p (take 999 l) asc (ap (λ (x : SeqHeightRanges × Bool). x.1) found))

    prune_drops :
        Commits bolt
        → IsBase bolt (prune_base_seq_num bolt ns db).1 ns (drop (passed_count p l) (p ∷ l))
    unfolding prune_base_seq_num scan_result
    prune_drops commits =
        rw (prune_base_seq_num, prune_scan_here)
          (record {
            stored = Holds-self bolt db ns _ _ (delete_keys-drop 999 p l db commits base.stored);
            words = All-drop (passed_count p l) (p ∷ l) base.words;
            ascending = IsAscending-drop (passed_count p l) (p ∷ l) base.ascending;
          })

    -- Where a gap is found and commits succeed, the numbers below the start of the gap are
    -- deleted: what is left begins at the start of the gap, with its height, and is ascending as
    -- before.
    pub prune_keeps :
        (r : SeqHeightRanges)
        → Commits bolt
        → (prune_base_seq_num bolt ns db).0 ≡ ok (r, true)
        → (rest : List SeqHeight) × (drop (passed_count p l) (p ∷ l)
            ≡ (r.start_seq_num, r.start_height) ∷ rest)
          × IsBase bolt
              (prune_base_seq_num bolt ns db).1
              ns
              ((r.start_seq_num, r.start_height) ∷ rest)
    prune_keeps r commits e =
        let found : gap p (take 999 l) ≡ (r, true) =
          ok-injective _ _ (sym prune_base_seq_num_range ∙ e) in
        let (rest, same) = drop-passed 999 p l (ap (λ (x : SeqHeightRanges × Bool). x.1) found) in
        let first : drop (passed_count p l) (p ∷ l) ≡ (r.start_seq_num, r.start_height) ∷ rest =
          rw found at same in
        (
          rest,
          first,
          subst (λ k. IsBase bolt (prune_base_seq_num bolt ns db).1 ns k) first
              (prune_drops commits),
        )
