-- ===== src/Store/Key/BigEndian.antt =====
-- Numbers as big-endian bytes: they read back, and their order is that of the bytes.
use native.Mathlib.Nat.{
  pow-succ', add-mul-mod_self_right, mod-eq_of_lt, div-add-mod, div-add-mod', one-le-pow, mod-lt,
}
use verulink.Base.{
  ℕ, zero, suc, ◌+◌, ◌*◌, ◌/◌, ◌%◌, ◌^◌, ◌<◌, ◌≡◌, refl, ap, sym, ◌∙◌, Bool, true, false, ◌&&◌,
  ◌||◌, [], ◌∷◌, Option, none, some, arith, ltb, ◌==◌, Bytes, length, All, ◌⊎◌, inl, inr,
}

-- `w` bytes, the highest first: the bytes of `v >> 8 * (w - 1)`, …, `v >> 8`, `v`.
unfoldable pub be : ℕ → ℕ → Bytes
be zero v = []
be (suc w) v = v / 256 ^ w % 256 ∷ be w v

unfoldable pub of_be : Bytes → ℕ
of_be [] = 0
of_be (b ∷ r) = b * 256 ^ length r + of_be r

-- The first bytes, where there are that many.
unfoldable pub first_bytes : ℕ → Bytes → Option Bytes
first_bytes zero b = some []
first_bytes (suc n) [] = none
first_bytes (suc n) (x ∷ b) =
    let rest = first_bytes n b in elim rest [ none ↦ none | some r ↦ some (x ∷ r) ]

-- `bytes.Compare(s, t) < 0`, the order of the keys in a bucket.
unfoldable pub bytes_lt : Bytes → Bytes → Bool
bytes_lt [] [] = false
bytes_lt [] (b ∷ t) = true
bytes_lt (a ∷ s) [] = false
bytes_lt (a ∷ s) (b ∷ t) = ltb a b || (a == b && bytes_lt s t)

pub length-be : (w v : ℕ) → length (be w v) ≡ w
unfolding be
length-be zero v = refl
length-be (suc w) v = ap suc (length-be w v)

abbrev pub IsByte : ℕ → Type 0
IsByte b = b < 256

pub All-be : (w v : ℕ) → All IsByte (be w v)
unfolding be
All-be zero v = tt
All-be (suc w) v = (omega arith, All-be w v)

pow_pos : (w : ℕ) → 0 < 256 ^ w
pow_pos w = one-le-pow w 256 (omega arith)

scaled_lt : (a b p r : ℕ) → a < b → r < p → a * p + r < b * p
scaled_lt a b p r h k = grind arith

regroup : (e f p r : ℕ) → (256 * e + f) * p + r ≡ f * p + r + e * (256 * p)
regroup e f p r = omega arith

ℕ_trichotomy : (a b : ℕ) → (a < b) ⊎ ((a ≡ b) ⊎ (b < a))
ℕ_trichotomy a b = grind arith

-- A remainder by `256 * p` is a digit and a remainder by `p`.
split_digit : (v p : ℕ) → 0 < p → v % (256 * p) ≡ v / p % 256 * p + v % p
split_digit v p pos =
    let d : ℕ = v / p in
    let low : v % p < p = mod-lt v pos in
    let digits : v ≡ d % 256 * p + v % p + d / 256 * (256 * p) =
      sym (div-add-mod' v p)
      ∙ (ap (λ (x : ℕ). x * p + v % p) (sym (div-add-mod d 256))
          ∙ regroup (d / 256) (d % 256) p (v % p)) in
    let small : d % 256 * p + v % p < 256 * p =
      scaled_lt (d % 256) 256 p (v % p) (omega arith) low in
    ap (λ (x : ℕ). x % (256 * p)) digits
    ∙ (add-mul-mod_self_right (d % 256 * p + v % p) (d / 256) (256 * p) ∙ mod-eq_of_lt small)

pub of_be-be : (w v : ℕ) → of_be (be w v) ≡ v % 256 ^ w
unfolding be of_be
of_be-be zero v = omega arith
of_be-be (suc w) v =
    rw (length-be w v, of_be-be w v, pow-succ' 256 w) (sym (split_digit v (256 ^ w) (pow_pos w)))

pub of_be_lt : (s : Bytes) → All IsByte s → of_be s < 256 ^ length s
unfolding of_be
of_be_lt [] h = omega arith
of_be_lt (b ∷ r) h = rw (pow-succ' 256 (length r)) (grind (arith, of_be_lt r h.1))

-- Numbers with a leading digit compare by it first.
heads :
    (a b p r s : ℕ) → r < p → s < p → (ltb a b || (a == b && ltb r s)) ≡ ltb (a * p + r) (b * p + s)
heads a b p r s hr hs = elim (ℕ_trichotomy a b) [
  | inl lt ↦ let h : a * p + r < b * p = scaled_lt a b p r lt hr in ground arith
  | inr (inl e) ↦ rw e (ground arith)
  | inr (inr gt) ↦ let h : b * p + s < a * p = scaled_lt b a p s gt hs in ground arith
]

-- Byte strings of one length are ordered as the numbers that they stand for.
pub bytes_lt-of_be :
    (s t : Bytes)
    → length s ≡ length t
    → All IsByte s
    → All IsByte t
    → bytes_lt s t ≡ ltb (of_be s) (of_be t)
unfolding bytes_lt of_be
bytes_lt-of_be [] [] e hs ht = refl
bytes_lt-of_be [] (b ∷ t) e hs ht = absurd (omega arith)
bytes_lt-of_be (a ∷ s) [] e hs ht = absurd (omega arith)
bytes_lt-of_be (a ∷ s) (b ∷ t) e hs ht =
    let same : length s ≡ length t = omega arith in
    let tail_lt : of_be s < 256 ^ length t = rw same at (of_be_lt s hs.1) in
    rw (bytes_lt-of_be s t same hs.1 ht.1, same)
      (heads a b (256 ^ length t) (of_be s) (of_be t) tail_lt (of_be_lt t ht.1))
