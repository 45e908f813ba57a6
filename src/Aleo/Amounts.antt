-- ===== src/Aleo/Amounts.antt =====
-- The numbers of attestor/chainService/chain/aleo/utils.go: a decimal text with the suffix of its type
-- is read as the number, also where the base is read off the text.
use verulink.Base.{
  ℕ, zero, suc, ◌+◌, ◌-◌, ◌*◌, ◌/◌, ◌%◌, ◌<◌, ◌≤◌, ◌≡◌, ◌⊎◌, inl, inr, refl, Bool, true, false, [],
  ◌∷◌, ◌++◌, some, Bytes, codes, ok, ltb, ◌==◌, arith, Bool-cases, All, drop, length, remove_first,
  starts_with,
}
use verulink.Chain.BigInt.{
  ℤ, pos, negsuc, digit, emit, itoa, scan, atoi, big_string, set_string-big_string, All-itoa,
  atoi-itoa, IsDigit,
}
use verulink.Aleo.Numerals.{digits, digit_value, any_base, set_string_any_base}
use verulink.Aleo.Parse.{number}
use verulink.Aleo.Cut.{plain, is_plain}
use verulink.Aleo.Loop.{IsQuiet, is_numeric, numeric-IsQuiet}

-- A text of digits in base ten.
digits-scan :
    (acc : ℕ) (needed : Bool) (s : Bytes)
    → All IsDigit s
    → (needed ≡ false) ⊎ (0 < length s)
    → digits 10 acc needed s ≡ scan acc s
unfolding scan
digits-scan acc needed [] h (inl e) = rw e
digits-scan acc needed [] h (inr l) = absurd (omega arith)
digits-scan acc needed (c ∷ s) h e =
    let plain : (c == b'_') ≡ false = ground arith in
    let value : digit_value c ≡ c - b'0' = ground arith in
    let small : ltb (c - b'0') 10 ≡ true = ground arith in
    let low : ltb c b'0' ≡ false = ground arith in
    let high : ltb b'9' c ≡ false = ground arith in
    let ih : digits 10 (acc * 10 + (c - b'0')) false s ≡ scan (acc * 10 + (c - b'0')) s =
      digits-scan (acc * 10 + (c - b'0')) false s h.1 (inl refl) in
    rw (plain, value, small, low, high) ih

-- A positive number does not begin with a zero.
emit_head :
    (f n : ℕ) → 0 < n → n < f → (c : ℕ) × (s : Bytes) × (emit f n ≡ c ∷ s) × ((c == b'0') ≡ false)
unfolding emit
emit_head zero n h lt = absurd (omega arith)
emit_head (suc f) n h lt = elim (Bool-cases (ltb n 10)) [
  | inl small ↦ (digit n, [], rw small, ground arith)
  | inr big ↦
      let (c, s, e, other) = emit_head f (n / 10) (ground arith) (ground arith) in
      (c, s ++ digit (n % 10) ∷ [], rw (big, e), other)
]

any_base_head :
    (c : ℕ) (s : Bytes) → (c == b'0') ≡ false → any_base (c ∷ s) ≡ digits 10 0 true (c ∷ s)
any_base_head c [] h = refl
any_base_head c (d ∷ s) h = rw h

any_base-positive : (n : ℕ) → 0 < n → any_base (itoa n) ≡ some n
any_base-positive n h =
    let (c, s, e, other) = emit_head (suc n) n h (omega arith) in
    let e' : itoa n ≡ c ∷ s = unfold itoa in e in
    let digit_bytes : All IsDigit (c ∷ s) = rw e' at (All-itoa n) in
    let value : atoi (c ∷ s) ≡ some n = rw e' at (atoi-itoa n) in
    rw (e', any_base_head c s other, digits-scan 0 true (c ∷ s) digit_bytes (inr (omega arith)))
      (unfold atoi in value)

pub any_base-itoa : (n : ℕ) → any_base (itoa n) ≡ some n
any_base-itoa zero = unfold itoa emit in refl
any_base-itoa (suc n) = any_base-positive (suc n) (omega arith)

starts_with_refl : (s : Bytes) → starts_with s s ≡ true
starts_with_refl [] = refl
starts_with_refl (c ∷ s) =
    let same : (c == c) ≡ true = ground arith in rw (same, starts_with_refl s)

drop-length : (s : Bytes) → drop (length s) s ≡ []
drop-length [] = refl
drop-length (c ∷ s) = drop-length s

-- Signs and digits come before the letters.
abbrev IsLow : ℕ → Type 0
IsLow c = c ≤ b'9'

-- The text of a number has no suffix in it, and the suffix goes.
remove_first-low :
    (u : ℕ) (suffix w : Bytes)
    → b'9' < u
    → All IsLow w
    → remove_first (u ∷ suffix) (w ++ u ∷ suffix) ≡ w
remove_first-low u suffix [] h d =
    let same : (u == u) ≡ true = ground arith in
    rw (remove_first, starts_with, same, starts_with_refl suffix) (drop-length suffix)
remove_first-low u suffix (c ∷ w) h d =
    let other : (u == c) ≡ false = ground arith in
    rw (remove_first, starts_with, other, remove_first-low u suffix w h d.1) refl

All-IsLow : (w : Bytes) → All IsDigit w → All IsLow w
All-IsLow [] h = tt
All-IsLow (c ∷ w) h = (h.0.1, All-IsLow w h.1)

All-big_string : (z : ℤ) → All IsLow (big_string z)
unfolding big_string
All-big_string (pos n) = All-IsLow (itoa n) (All-itoa n)
All-big_string (negsuc n) = (omega arith, All-IsLow (itoa (suc n)) (All-itoa (suc n)))

-- A number that is written with the suffix of its type is read as that number.
pub number-big_string :
    (u : ℕ) (suffix error : Bytes) (z : ℤ)
    → b'9' < u
    → number (u ∷ suffix) error (big_string z ++ u ∷ suffix) ≡ ok z
number-big_string u suffix error z h =
    rw (remove_first-low u suffix (big_string z) h (All-big_string z), set_string-big_string z) refl

set_string_any_base-digits :
    (s : Bytes) (n : ℕ) → All IsDigit s → any_base s ≡ some n → set_string_any_base s ≡ some (pos n)
unfolding set_string_any_base
set_string_any_base-digits [] n h e = cc
set_string_any_base-digits (c ∷ s) n h e =
    let minus : (c == b'-') ≡ false = ground arith in
    let plus : (c == b'+') ≡ false = ground arith in rw (minus, plus, e)

-- So is an amount, whose base is read off its text.
pub amount-itoa :
    (n : ℕ)
    → set_string_any_base (remove_first (codes "u128") (itoa n ++ codes "u128")) ≡ some (pos n)
amount-itoa n =
    rw
      (remove_first-low b'u' (codes "128") (itoa n) (omega arith) (All-IsLow (itoa n) (All-itoa n)))
      (set_string_any_base-digits (itoa n) n (All-itoa n) (any_base-itoa n))

plain-append : (w rest : Bytes) → All IsDigit w → plain rest ≡ true → plain (w ++ rest) ≡ true
plain-append [] rest h r = r
plain-append (c ∷ w) rest h r =
    let kept : is_plain c ≡ true = ground arith in rw kept (plain-append w rest h.1 r)

-- The text of a number and its suffix is one word.
pub plain-big_string :
    (z : ℤ) (suffix : Bytes) → plain suffix ≡ true → plain (big_string z ++ suffix) ≡ true
unfolding big_string
plain-big_string (pos n) suffix h = plain-append (itoa n) suffix (All-itoa n) h
plain-big_string (negsuc n) suffix h = plain-append (itoa (suc n)) suffix (All-itoa (suc n)) h

is_numeric-digits :
    (s rest : Bytes) (n : ℕ) → All IsDigit s → atoi s ≡ some n → is_numeric (s ++ rest) ≡ true
unfolding atoi
is_numeric-digits [] rest n h e = cc
is_numeric-digits (c ∷ s) rest n h e = ground arith

pub big_string-IsQuiet : (z : ℤ) (suffix : Bytes) → IsQuiet (big_string z ++ suffix)
unfolding big_string
big_string-IsQuiet (pos n) suffix =
    numeric-IsQuiet (itoa n ++ suffix)
      (is_numeric-digits (itoa n) suffix n (All-itoa n) (atoi-itoa n))
big_string-IsQuiet (negsuc n) suffix = numeric-IsQuiet (b'-' ∷ (itoa (suc n) ++ suffix)) refl
