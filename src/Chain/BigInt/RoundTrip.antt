-- ===== src/Chain/BigInt/RoundTrip.antt =====
-- A printed integer reads back.
use verulink.Base.{
  ℕ, zero, suc, ◌+◌, ◌-◌, ◌*◌, ◌/◌, ◌%◌, ◌<◌, ◌≤◌, ◌≡◌, refl, ap, true, false, inl, inr, [], ◌∷◌,
  ◌++◌, Option, none, some, Bytes, ltb, ◌==◌, arith, Bool-cases, All, All-append, length,
  length-append,
}
use verulink.Chain.BigInt.Defs.{
  ℤ, pos, negsuc, emit, itoa, digit, scan, atoi, big_string, set_string, eqb_ℤ,
}

then_digit : ℕ → Option ℕ → Option ℕ
then_digit d none = none
then_digit d (some v) = some (v * 10 + d)

scan-snoc :
    (acc : ℕ) (s : Bytes) (d : ℕ)
    → d < 10
    → scan acc (s ++ digit d ∷ []) ≡ then_digit d (scan acc s)
unfolding scan then_digit
scan-snoc acc [] d h = ground arith
scan-snoc acc (c ∷ s) d h = ground (arith, scan-snoc (acc * 10 + (c - b'0')) s d)

pub scan-emit : (f n : ℕ) → n < f → scan 0 (emit f n) ≡ some n
unfolding emit
scan-emit zero n h = absurd (omega arith)
scan-emit (suc f) n h = elim (Bool-cases (ltb n 10)) [
  | inl small ↦ rw small (unfold scan in ground arith)
  | inr big ↦
      rw
        (
          big,
          scan-snoc 0 (emit f (n / 10)) (n % 10) (omega arith),
          scan-emit f (n / 10) (ground arith),
        )
        (unfold then_digit in ground arith)
]

abbrev pub IsDigit : ℕ → Type 0
IsDigit c = (b'0' ≤ c) × (c ≤ b'9')

pub All-emit : (f n : ℕ) → All IsDigit (emit f n)
unfolding emit
All-emit zero n = tt
All-emit (suc f) n = elim (Bool-cases (ltb n 10)) [
  | inl small ↦ rw small (ground arith)
  | inr big ↦ rw big (
      All-append IsDigit (emit f (n / 10)) (digit (n % 10) ∷ []) (All-emit f (n / 10))
        (omega arith))
]

pub All-itoa : (n : ℕ) → All IsDigit (itoa n)
unfolding itoa
All-itoa n = All-emit (suc n) n

emit_nonempty : (f n : ℕ) → 0 < length (emit (suc f) n)
unfolding emit
emit_nonempty f n = elim (Bool-cases (ltb n 10)) [
  | inl small ↦ rw small (omega arith)
  | inr big ↦ rw big (omega (arith, length-append (emit f (n / 10)) (digit (n % 10) ∷ [])))
]

atoi-scan : (s : Bytes) → 0 < length s → atoi s ≡ scan 0 s
unfolding atoi
atoi-scan [] h = absurd (omega arith)
atoi-scan (c ∷ s) h = refl

pub atoi-itoa : (n : ℕ) → atoi (itoa n) ≡ some n
unfolding itoa
atoi-itoa n =
    rw (atoi-scan (emit (suc n) n) (emit_nonempty n n)) (scan-emit (suc n) n (omega arith))

unsigned : (s : Bytes) (n : ℕ) → All IsDigit s → atoi s ≡ some n → set_string s ≡ some (pos n)
unfolding set_string
unsigned [] n h e = unfold atoi in cc e
unsigned (c ∷ s) n h e =
    let minus : (c == b'-') ≡ false = ground arith in
    let plus : (c == b'+') ≡ false = ground arith in rw (minus, plus, e)

-- The decimal text of an integer of any sign reads back as that integer.
pub set_string-big_string : (z : ℤ) → set_string (big_string z) ≡ some z
unfolding big_string
set_string-big_string (pos n) = unsigned (itoa n) n (All-itoa n) (atoi-itoa n)
set_string-big_string (negsuc n) = unfold set_string in rw (atoi-itoa (suc n))

-- Different chain ids print differently.
pub big_string-injective : (x y : ℤ) → big_string x ≡ big_string y → x ≡ y
big_string-injective x y e = cc (set_string-big_string x, set_string-big_string y, ap set_string e)

pub eqb_ℤ_iff : (x y : ℤ) → (eqb_ℤ x y ≡ true → x ≡ y) × (x ≡ y → eqb_ℤ x y ≡ true)
unfolding eqb_ℤ
eqb_ℤ_iff x y = (λ h. ground arith, λ h. ground arith)
