-- ===== src/Store/BaseSeq/Gap.antt =====
-- The first gap in ascending sequence numbers: an independent description of what
-- `PruneBaseSeqNum` looks for.
use verulink.Base.{
  ℕ, ◌+◌, ◌<◌, ◌≤◌, ◌≡◌, inl, inr, refl, Bool, true, false, List, [], ◌∷◌, ◌==◌, arith,
  if◌then◌else◌, Bool-cases,
}
use verulink.Store.Db.{SeqHeightRanges, no_ranges}
use verulink.Store.BaseSeq.Encoding.{SeqHeight, IsAscending, HasSeq}

abbrev pub between : SeqHeight → SeqHeight → SeqHeightRanges
between p q = record {
  start_seq_num = p.0;
  end_seq_num = q.0;
  start_height = p.1;
  end_height = q.1;
}

-- The first two neighbours behind `p` that are not consecutive.
unfoldable pub gap : SeqHeight → List SeqHeight → SeqHeightRanges × Bool
gap p [] = (no_ranges, false)
gap p (q ∷ l) = let rest = gap q l in if q.0 == p.0 + 1 then rest else (between p q, true)

-- The numbers whose successor is recorded right behind them.
unfoldable pub passed : SeqHeight → List SeqHeight → List ℕ
passed p [] = []
passed p (q ∷ l) = let rest = passed q l in if q.0 == p.0 + 1 then p.0 ∷ rest else []

pub HasSeq-ge :
    (p : SeqHeight) (l : List SeqHeight) (n : ℕ) → IsAscending (p ∷ l) → HasSeq n (p ∷ l) → p.0 ≤ n
HasSeq-ge p [] n asc (inl e) = omega arith
HasSeq-ge p [] n asc (inr m) = absurd m
HasSeq-ge p (q ∷ l) n asc (inl e) = omega arith
HasSeq-ge p (q ∷ l) n asc (inr m) = omega (arith, HasSeq-ge q l n asc.1 m)

-- A gap lies between two recorded numbers, none is recorded inside it, and below it all are.
pub record IsFirstGap (p : SeqHeight) (l : List SeqHeight) (r : SeqHeightRanges) : Type 0 where
  pub start_recorded : HasSeq r.start_seq_num (p ∷ l)
  pub end_recorded : HasSeq r.end_seq_num (p ∷ l)
  pub wide : r.start_seq_num + 1 < r.end_seq_num
  pub empty_inside : (n : ℕ) → r.start_seq_num < n → n < r.end_seq_num → HasSeq n (p ∷ l) → ⊥
  pub full_below : (n : ℕ) → p.0 ≤ n → n ≤ r.start_seq_num → HasSeq n (p ∷ l)

IsFirstGap-here :
    (p q : SeqHeight) (l : List SeqHeight)
    → IsAscending (p ∷ q ∷ l)
    → (q.0 == p.0 + 1) ≡ false
    → IsFirstGap p (q ∷ l) (between p q)
IsFirstGap-here p q l asc ne = record {
  start_recorded = inl refl;
  end_recorded = inr (inl refl);
  wide = ground arith;
  empty_inside = λ n lo hi m. elim m [
    | inl e ↦ omega arith
    | inr later ↦ omega (arith, HasSeq-ge q l n asc.1 later)
  ];
  full_below = λ n lo hi. inl (omega arith);
}

IsFirstGap-there :
    (p q : SeqHeight) (l : List SeqHeight) (r : SeqHeightRanges)
    → IsAscending (p ∷ q ∷ l)
    → (q.0 == p.0 + 1) ≡ true
    → IsFirstGap q l r
    → IsFirstGap p (q ∷ l) r
IsFirstGap-there p q l r asc e g = record {
  start_recorded = inr g.start_recorded;
  end_recorded = inr g.end_recorded;
  wide = g.wide;
  empty_inside = λ n lo hi m. elim m [
    | inl same ↦ omega (arith, HasSeq-ge q l r.start_seq_num asc.1 g.start_recorded)
    | inr later ↦ g.empty_inside n lo hi later
  ];
  full_below = λ n lo hi. elim (Bool-cases (n == p.0)) [
    | inl same ↦ inl (ground arith)
    | inr other ↦ inr (g.full_below n (ground arith) hi)
  ];
}

-- What is found is the first gap.
pub gap-IsFirstGap :
    (p : SeqHeight) (l : List SeqHeight)
    → IsAscending (p ∷ l)
    → (gap p l).1 ≡ true
    → IsFirstGap p l (gap p l).0
unfolding gap
gap-IsFirstGap p [] asc h = cc
gap-IsFirstGap p (q ∷ l) asc h = elim (Bool-cases (q.0 == p.0 + 1)) [
  | inl e ↦ rw e (IsFirstGap-there p q l (gap q l).0 asc e (gap-IsFirstGap q l asc.1 (rw e at h)))
  | inr ne ↦ rw ne (IsFirstGap-here p q l asc ne)
]

-- Where none is found, the numbers are consecutive.
pub gap_none_consecutive :
    (p : SeqHeight) (l : List SeqHeight) (m n : ℕ)
    → IsAscending (p ∷ l)
    → (gap p l).1 ≡ false
    → HasSeq m (p ∷ l)
    → p.0 ≤ n
    → n ≤ m
    → HasSeq n (p ∷ l)
unfolding gap
gap_none_consecutive p [] m n asc h has lo hi = ground arith
gap_none_consecutive p (q ∷ l) m n asc h (inl e) lo hi = inl (omega arith)
gap_none_consecutive p (q ∷ l) m n asc h (inr later) lo hi = elim (Bool-cases (q.0 == p.0 + 1)) [
  | inl e ↦ elim (Bool-cases (n == p.0)) [
    | inl same ↦ inl (ground arith)
    | inr other ↦ inr (gap_none_consecutive q l m n asc.1 (rw e at h) later (ground arith) hi)
  ]
  | inr ne ↦ absurd (ground arith)
]
