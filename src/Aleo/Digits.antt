-- ===== src/Aleo/Digits.antt =====
-- The decimal texts of bytes, as attestor/chainService/chain/aleo/utils.go writes and reads them.
use verulink.Base.{
  ℕ, zero, suc, ◌<◌, ◌≡◌, inl, inr, refl, ap, Bool, true, false, ◌&&◌, [], ◌∷◌, some, Option, Bytes,
  leb, ◌==◌, arith, Bool-cases, none,
}
use verulink.Chain.BigInt.{itoa, emit}
use verulink.Aleo.Numerals.{any_base}

abbrev pub all_digits : Bytes → Bool
all_digits [] = true
all_digits (c ∷ s) = let rest = all_digits s in leb b'0' c && leb c b'9' && rest

abbrev is_some : Option ℕ → ℕ → Bool
is_some none n = false
is_some (some m) n = m == n

abbrev pub nonempty : Bytes → Bool
nonempty [] = false
nonempty (c ∷ s) = true

abbrev reads_back : ℕ → Bool
reads_back n = is_some (any_base (itoa n)) n && all_digits (itoa n) && nonempty (itoa n)

abbrev all_below : (ℕ → Bool) → ℕ → Bool
all_below test zero = true
all_below test (suc n) = let rest = all_below test n in test n && rest

all_below_each : (test : ℕ → Bool) (m n : ℕ) → all_below test m ≡ true → n < m → test n ≡ true
all_below_each test zero n h lt = absurd (omega arith)
all_below_each test (suc m) n h lt = elim (Bool-cases (n == m)) [
  | inl same ↦ let e : n ≡ m = ground arith in rw e (ground arith)
  | inr other ↦ all_below_each test m n (ground arith) (ground arith)
]

bytes_read_back : all_below reads_back 256 ≡ true
unfolding itoa emit
bytes_read_back = refl

is_some_lem : (o : Option ℕ) (n : ℕ) → is_some o n ≡ true → o ≡ some n
is_some_lem none n h = cc
is_some_lem (some m) n h = ap some (ground arith)

-- A text of digits, of one or more.
pub record IsPlain (n : ℕ) (s : Bytes) : Type 0 where
  pub value : any_base s ≡ some n
  pub digits : all_digits s ≡ true
  pub some_digit : nonempty s ≡ true

pub itoa-IsPlain : (n : ℕ) → n < 256 → IsPlain n (itoa n)
itoa-IsPlain n lt =
    let h : reads_back n ≡ true = all_below_each reads_back 256 n bytes_read_back lt in
    record {
      value = is_some_lem (any_base (itoa n)) n (ground arith);
      digits = ground arith;
      some_digit = ground arith;
    }
