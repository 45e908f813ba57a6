-- ===== src/Base/Text.antt =====
-- Byte strings: literals, equality, the order of keys, and maps from byte strings.
use Prim.Native.Nat.{ℕ, zero, suc, ◌-◌}
use Prim.Native.Char.{code}
use Prim.Native.String.{String}
use mathlib.Core.Path.{◌≡◌, refl}
use mathlib.Core.Logic.{◌↔◌}
use mathlib.Core.Bool.{Bool, true, false, ◌&&◌}
use mathlib.Core.Option.{Option, none, some}
use mathlib.Core.List.{List, [], ◌∷◌}
use native.Mathlib.Omega.{arith}
use mathlib.Core.List.{◌++◌}
use verulink.Base.Lists.{length, drop}
use verulink.Base.Tests.{◌==◌, if◌then◌else◌}

-- A Go `string` or `[]byte`.
abbrev pub Bytes : Type 0
Bytes = List ℕ

-- The bytes of an ASCII literal.
abbrev pub codes : String → Bytes
codes String.[] = []
codes (String.◌∷◌ c s) = code c ∷ codes s

unfoldable pub eqb : Bytes → Bytes → Bool
eqb [] [] = true
eqb [] (b ∷ t) = false
eqb (a ∷ s) [] = false
eqb (a ∷ s) (b ∷ t) = a == b && eqb s t

pub eqb_iff : (s t : Bytes) → (eqb s t ≡ true) ↔ (s ≡ t)
unfolding eqb
eqb_iff [] [] = ground arith
eqb_iff [] (b ∷ t) = ground arith
eqb_iff (a ∷ s) [] = ground arith
eqb_iff (a ∷ s) (b ∷ t) = ground (arith, eqb_iff s t)

pub eqb_refl : (s : Bytes) → eqb s s ≡ true
eqb_refl s = (eqb_iff s s).1 refl

-- `m[k]` of a map with string keys, kept as the list of its pairs.
module _ {ℓ} {V : Type ℓ} where
  unfoldable pub lookup : Bytes → List (Bytes × V) → Option V
  lookup k [] = none
  lookup k ((j, v) ∷ m) = if eqb j k then some v else lookup k m

abbrev pub starts_with : Bytes → Bytes → Bool
starts_with [] s = true
starts_with (p ∷ pattern) [] = false
starts_with (p ∷ pattern) (c ∷ s) = p == c && starts_with pattern s

-- A text without a pattern: `strings.ReplaceAll(s, pattern, "")`; the number counts the bytes of an
-- occurrence that are still to be dropped.
abbrev pub remove_all : Bytes → ℕ → Bytes → Bytes
remove_all pattern skip [] = []
remove_all pattern (suc skip) (c ∷ s) = remove_all pattern skip s
remove_all pattern zero (c ∷ s) = elim (starts_with pattern (c ∷ s)) [
  | true ↦ remove_all pattern (length pattern - 1) s
  | false ↦ c ∷ remove_all pattern zero s
]

-- `strings.Replace(s, pattern, "", 1)`.
abbrev pub remove_first : Bytes → Bytes → Bytes
remove_first pattern [] = []
remove_first pattern (c ∷ s) = elim (starts_with pattern (c ∷ s)) [
  | true ↦ drop (length pattern) (c ∷ s)
  | false ↦ c ∷ remove_first pattern s
]

-- `strings.Count(s, pattern)`, with the number of `remove_all`.
abbrev pub count : Bytes → ℕ → Bytes → ℕ
count pattern skip [] = 0
count pattern (suc skip) (c ∷ s) = count pattern skip s
count pattern zero (c ∷ s) = elim (starts_with pattern (c ∷ s)) [
  | true ↦ suc (count pattern (length pattern - 1) s)
  | false ↦ count pattern zero s
]

abbrev pub onto_first : ℕ → List Bytes → List Bytes
onto_first c [] = (c ∷ []) ∷ []
onto_first c (w ∷ ws) = (c ∷ w) ∷ ws

-- `strings.Split(s, sep)` and `strings.Join(words, sep)`, of a separator of one byte.
abbrev pub split : ℕ → Bytes → List Bytes
split sep [] = [] ∷ []
split sep (c ∷ s) = let rest = split sep s in if c == sep then [] ∷ rest else onto_first c rest

abbrev pub join : ℕ → List Bytes → Bytes
join sep [] = []
join sep (w ∷ []) = w
join sep (w ∷ x ∷ ws) = w ++ sep ∷ join sep (x ∷ ws)
