-- ===== src/Chain/BigInt/Defs.antt =====
-- Integers and their decimal text.
use verulink.Base.{
  ℕ, zero, suc, ◌+◌, ◌-◌, ◌*◌, ◌/◌, ◌%◌, Bool, false, ◌||◌, [], ◌∷◌, ◌++◌, Option, none, some,
  Bytes, ltb, ◌==◌, if◌then◌else◌,
}

-- `negsuc n` is -(n + 1).
pub data ℤ : Type 0 where
  pos : ℕ → ℤ
  negsuc : ℕ → ℤ

-- `a.Cmp(b) == 0`.
unfoldable pub eqb_ℤ : ℤ → ℤ → Bool
eqb_ℤ (pos a) (pos b) = a == b
eqb_ℤ (pos a) (negsuc b) = false
eqb_ℤ (negsuc a) (pos b) = false
eqb_ℤ (negsuc a) (negsuc b) = a == b

abbrev pub digit : ℕ → ℕ
digit d = b'0' + d

-- The digits of `n`; the first argument bounds their number.
unfoldable pub emit : ℕ → ℕ → Bytes
emit zero n = []
emit (suc f) n =
    let rest = emit f (n / 10) in if ltb n 10 then digit n ∷ [] else rest ++ digit (n % 10) ∷ []

unfoldable pub itoa : ℕ → Bytes
unfolding emit
itoa n = emit (suc n) n

unfoldable pub scan : ℕ → Bytes → Option ℕ
scan acc [] = some acc
scan acc (c ∷ s) =
    let rest = scan (acc * 10 + (c - b'0')) s in if ltb c b'0' || ltb b'9' c then none else rest

-- A text of one digit or more.
unfoldable pub atoi : Bytes → Option ℕ
unfolding scan
atoi [] = none
atoi (c ∷ s) = scan 0 (c ∷ s)

unfoldable pub big_string : ℤ → Bytes
unfolding itoa
big_string (pos n) = itoa n
big_string (negsuc n) = b'-' ∷ itoa (suc n)

abbrev pub negate : Option ℕ → Option ℤ
negate none = none
negate (some zero) = some (pos zero)
negate (some (suc n)) = some (negsuc n)

abbrev pub positive : Option ℕ → Option ℤ
positive none = none
positive (some n) = some (pos n)

-- `new(big.Int).SetString(s, 10)`: a sign may stand in front.
unfoldable pub set_string : Bytes → Option ℤ
unfolding atoi
set_string [] = none
set_string (c ∷ s) =
    if c == b'-'
    then negate (atoi s)
    else if c == b'+'
    then positive (atoi s)
    else positive (atoi (c ∷ s))
