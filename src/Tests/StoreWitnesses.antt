-- ===== src/Tests/StoreWitnesses.antt =====
-- The theorems of the store at concrete stores.
use mathlib.Core.List.Perm
use verulink.Base.{
  ◌⊎◌, true, false, panics, ◌<◌, ◌≡◌, ◌⊎◌, inl, inr, refl, true, false, List, [], ◌∷◌, some, Bytes,
  eqb, arith, take, drop, Error, ok, err,
}
use verulink.Store.Key.{uint64, put_uint64, get_key_byte_for_key_constraint, convert_type}
use verulink.Store.Key.Laws.{bytes_lt-put_uint64, is_defined, convert_type-get_key_byte}
use verulink.Store.Key.BigEndian.{bytes_lt}
use verulink.Store.Db.{
  delete_keys, store_base_seq_num, prune_base_seq_num, get_starting_seq_num_and_height,
}
use verulink.Store.BaseSeq.Encoding.{SeqHeight, insert_seq}
use verulink.Store.BaseSeq.Refinement.{
  IsBase, start_after, store_base_seq_num_refines, get_starting_refines, HasSeq-lt-start,
}
use verulink.Store.BaseSeq.Gap.{IsFirstGap, gap}
use verulink.Store.BaseSeq.Prune.{
  passed_count, prune_base_seq_num_range, prune-IsFirstGap, prune_keeps,
}
use verulink.Store.BaseSeq.DeleteOrder.{delete_keys-Perm}
use verulink.Tests.Journal.{journal, Write}
use verulink.Tests.Stores.{ns, delivered, gapped, gapped-IsBase, commits, empty_at}

store_base_seq_num_refines_example :
    ((after : List Write) × (store_base_seq_num journal ns 3 30 gapped ≡ (ok tt, after))
      × IsBase journal after ns (insert_seq 3 30 delivered)
      × ((m : Bytes) → eqb ns m ≡ false → journal.bucket after m ≡ journal.bucket gapped m))
    ⊎ ((e : Error) × (store_base_seq_num journal ns 3 30 gapped ≡ (err e, gapped)))
store_base_seq_num_refines_example =
    store_base_seq_num_refines journal gapped ns delivered gapped-IsBase 3 30 (omega arith)
      (omega arith)

get_starting_refines_example : get_starting_seq_num_and_height journal ns gapped ≡ ok (6, 51)
get_starting_refines_example = get_starting_refines journal gapped ns delivered gapped-IsBase

found_gap :
    gap (1, 10) (take 999 ((2, 20) ∷ (5, 50) ∷ []))
    ≡ (record { start_seq_num = 2; end_seq_num = 5; start_height = 20; end_height = 50 }, true)
unfolding gap
found_gap = refl

gapped_range :
    (prune_base_seq_num journal ns gapped).0
    ≡ ok (record { start_seq_num = 2; end_seq_num = 5; start_height = 20; end_height = 50 }, true)
gapped_range =
    rw (prune_base_seq_num_range journal ns gapped (1, 10) ((2, 20) ∷ (5, 50) ∷ []) gapped-IsBase)
      (rw found_gap)

prune-IsFirstGap_example :
    IsFirstGap
      (1, 10)
      (take 999 ((2, 20) ∷ (5, 50) ∷ []))
      (record { start_seq_num = 2; end_seq_num = 5; start_height = 20; end_height = 50 })
prune-IsFirstGap_example =
    prune-IsFirstGap journal ns gapped (1, 10) ((2, 20) ∷ (5, 50) ∷ []) gapped-IsBase
      (record { start_seq_num = 2; end_seq_num = 5; start_height = 20; end_height = 50 })
      gapped_range

prune_keeps_example :
    (rest : List SeqHeight) × (drop (passed_count (1, 10) ((2, 20) ∷ (5, 50) ∷ [])) delivered
      ≡ (2, 20) ∷ rest)
    × IsBase journal (prune_base_seq_num journal ns gapped).1 ns ((2, 20) ∷ rest)
prune_keeps_example =
    prune_keeps journal ns gapped (1, 10) ((2, 20) ∷ (5, 50) ∷ []) gapped-IsBase
      (record { start_seq_num = 2; end_seq_num = 5; start_height = 20; end_height = 50 }) commits
      gapped_range

delete_keys-Perm_example :
    journal.bucket (delete_keys journal ns (put_uint64 1 ∷ put_uint64 2 ∷ []) gapped) ns
    ≡ journal.bucket (delete_keys journal ns (put_uint64 2 ∷ put_uint64 1 ∷ []) gapped) ns
delete_keys-Perm_example =
    delete_keys-Perm journal ns commits (put_uint64 1 ∷ put_uint64 2 ∷ [])
      (put_uint64 2 ∷ put_uint64 1 ∷ []) _ gapped gapped-IsBase.stored
      (Perm.swap (put_uint64 2) (put_uint64 1) []) ns

prune_base_seq_num_range_example :
    (prune_base_seq_num journal ns gapped).0 ≡ ok (gap (1, 10) (take 999 ((2, 20) ∷ (5, 50) ∷ [])))
prune_base_seq_num_range_example =
    prune_base_seq_num_range journal ns gapped (1, 10) ((2, 20) ∷ (5, 50) ∷ []) gapped-IsBase

empty_here : journal.bucket (empty_at ns) ns ≡ some []
unfolding eqb
empty_here = refl

HasSeq-lt-start_example : 2 < (start_after delivered).0
HasSeq-lt-start_example =
    HasSeq-lt-start delivered 2 (omega arith) (omega arith) (λ e. absurd (omega (arith, e)))
      (inr (inl refl))

bytes_lt-put_uint64_example : bytes_lt (put_uint64 255) (put_uint64 256) ≡ true
bytes_lt-put_uint64_example = bytes_lt-put_uint64 255 256 (omega arith) (omega arith)

convert_type-get_key_byte_example :
    ((is_defined (uint64 9) ≡ false)
      × (convert_type (uint64 0) (get_key_byte_for_key_constraint (uint64 9)) ≡ ok (uint64 9)))
    ⊎ ((is_defined (uint64 9) ≡ true)
        × (get_key_byte_for_key_constraint (uint64 9) ≡ [])
        × (convert_type (uint64 0) (get_key_byte_for_key_constraint (uint64 9)) ≡ panics))
convert_type-get_key_byte_example = convert_type-get_key_byte (uint64 0) (uint64 9) tt (omega arith)
