-- ===== src/Aleo/Numerals.antt =====
-- The numbers that `SetString(s, 0)` and `ParseUint(s, 0, 8)` read: a prefix names the base, and an
-- underscore may stand between digits or after the prefix.
use verulink.Base.{
  ℕ, ◌+◌, ◌-◌, ◌*◌, Bool, true, false, not, ◌||◌, ◌&&◌, [], ◌∷◌, Option, none, some, Bytes, ltb,
  leb, ◌==◌, if◌then◌else◌,
}
use verulink.Chain.BigInt.{ℤ, negate, positive}

abbrev between : ℕ → ℕ → ℕ → Bool
between low high c = leb low c && leb c high

-- The value of a digit; 36 stands for no digit.
abbrev pub digit_value : ℕ → ℕ
digit_value c =
    if between b'0' b'9' c
    then c - b'0'
    else if between b'a' b'z' c
    then c - b'a' + 10
    else if between b'A' b'Z' c
    then c - b'A' + 10
    else 36

-- The digits in a base; the flag tells that a digit has to follow.
abbrev pub digits : ℕ → ℕ → Bool → Bytes → Option ℕ
digits base acc needed [] = if needed then none else some acc
digits base acc needed (c ∷ s) =
    let skipped = digits base acc true s in
    let rest = digits base (acc * base + digit_value c) false s in
    if c == b'_'
    then (if needed then none else skipped)
    else if ltb (digit_value c) base
    then rest
    else none

-- The digits after a prefix that is two bytes long: an underscore may come first.
abbrev prefixed : ℕ → Bytes → Option ℕ
prefixed base [] = none
prefixed base (c ∷ s) = digits base 0 (c == b'_') (if c == b'_' then s else c ∷ s)

abbrev is_letter : ℕ → ℕ → ℕ → Bool
is_letter lower upper c = c == lower || c == upper

abbrev pub any_base : Bytes → Option ℕ
any_base [] = none
any_base (c ∷ []) = digits 10 0 true (c ∷ [])
any_base (c ∷ d ∷ s) =
    if not (c == b'0')
    then digits 10 0 true (c ∷ d ∷ s)
    else if is_letter b'x' b'X' d
    then prefixed 16 s
    else if is_letter b'b' b'B' d
    then prefixed 2 s
    else if is_letter b'o' b'O' d
    then prefixed 8 s
    else prefixed 8 (d ∷ s)

-- `new(big.Int).SetString(s, 0)`.
unfoldable pub set_string_any_base : Bytes → Option ℤ
set_string_any_base [] = none
set_string_any_base (c ∷ s) =
    if c == b'-'
    then negate (any_base s)
    else if c == b'+'
    then positive (any_base s)
    else positive (any_base (c ∷ s))
