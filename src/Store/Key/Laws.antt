-- ===== src/Store/Key/Laws.antt =====
-- Keys made of sequence numbers: they read back, they are valid keys of a bucket, and they are
-- ordered as the numbers are.
use native.Mathlib.Nat.{mod-eq_of_lt}
use verulink.Base.{
  ℕ, ◌^◌, ◌%◌, ◌<◌, ◌≡◌, refl, sym, ap, ◌∙◌, ◌⊎◌, Bool, true, false, [], panics, inl, inr, some,
  eqb, eqb_iff, ◌==◌, ==_iff, ltb, ok, arith, length, Bool-cases,
}
use verulink.Store.Key.BigEndian.{
  be, of_be, of_be-be, first_bytes, bytes_lt, bytes_lt-of_be, length-be, All-be,
}
use verulink.Store.Key.{
  Key, int64, uint64, text, bytes, defined_text, defined_bytes, put_uint64, get_uint64,
  get_key_byte_for_key_constraint, convert_type,
}

abbrev pub IsWord : ℕ → Type 0
IsWord n = n < 2 ^ 64

of_be-put_uint64 : (n : ℕ) → IsWord n → of_be (put_uint64 n) ≡ n
unfolding put_uint64
of_be-put_uint64 n h = of_be-be 8 n ∙ mod-eq_of_lt h

first_bytes-be : (n : ℕ) → first_bytes 8 (be 8 n) ≡ some (be 8 n)
unfolding first_bytes be
first_bytes-be n = refl

pub get_uint64-put_uint64 : (n : ℕ) → IsWord n → get_uint64 (put_uint64 n) ≡ ok n
unfolding get_uint64 put_uint64
get_uint64-put_uint64 n h = rw (first_bytes-be n, of_be-be 8 n, mod-eq_of_lt h)

pub length-put_uint64 : (n : ℕ) → length (put_uint64 n) ≡ 8
unfolding put_uint64
length-put_uint64 n = length-be 8 n

-- Keys of words are ordered as the words.
pub bytes_lt-put_uint64 :
    (a b : ℕ) → IsWord a → IsWord b → bytes_lt (put_uint64 a) (put_uint64 b) ≡ ltb a b
unfolding put_uint64
bytes_lt-put_uint64 a b ha hb =
    bytes_lt-of_be (be 8 a) (be 8 b) (length-be 8 a ∙ sym (length-be 8 b)) (All-be 8 a) (All-be 8 b)
    ∙ rw (of_be-be 8 a, of_be-be 8 b, mod-eq_of_lt ha, mod-eq_of_lt hb)

pub put_uint64-injective : (a b : ℕ) → IsWord a → IsWord b → put_uint64 a ≡ put_uint64 b → a ≡ b
put_uint64-injective a b ha hb e =
    sym (of_be-put_uint64 a ha) ∙ (ap of_be e ∙ of_be-put_uint64 b hb)

pub eqb-put_uint64 : (a b : ℕ) → IsWord a → IsWord b → eqb (put_uint64 a) (put_uint64 b) ≡ (a == b)
eqb-put_uint64 a b ha hb = elim (Bool-cases (eqb (put_uint64 a) (put_uint64 b))) [
  | inl same ↦
      let e : a ≡ b =
        put_uint64-injective a b ha hb ((eqb_iff (put_uint64 a) (put_uint64 b)).0 same) in
      rw same (ground (arith, ==_iff a b))
  | inr other ↦ elim (Bool-cases (a == b)) [
    | inl e ↦
        let p : eqb (put_uint64 a) (put_uint64 b) ≡ true =
          (eqb_iff _ _).1 (ap put_uint64 ((==_iff a b).0 e)) in
        cc
    | inr ne ↦ rw (other, ne)
  ]
]

-- A value of the type that a key has.
abbrev pub InRange : Key → Type 0
InRange (int64 v) = IsWord v
InRange (uint64 v) = IsWord v
InRange (text v) = Unit
InRange (bytes v) = Unit
InRange (defined_text v) = Unit
InRange (defined_bytes v) = Unit

-- The same type with another value.
abbrev pub SameType : Key → Key → Type 0
SameType (int64 _) (int64 _) = Unit
SameType (uint64 _) (uint64 _) = Unit
SameType (text _) (text _) = Unit
SameType (bytes _) (bytes _) = Unit
SameType (defined_text _) (defined_text _) = Unit
SameType (defined_bytes _) (defined_bytes _) = Unit
SameType (int64 _) _ = ⊥
SameType (uint64 _) _ = ⊥
SameType (text _) _ = ⊥
SameType (bytes _) _ = ⊥
SameType (defined_text _) _ = ⊥
SameType (defined_bytes _) _ = ⊥

-- A type that is defined on another one.
abbrev pub is_defined : Key → Bool
is_defined (int64 _) = false
is_defined (uint64 _) = false
is_defined (text _) = false
is_defined (bytes _) = false
is_defined (defined_text _) = true
is_defined (defined_bytes _) = true

-- Whatever value of the same type tells the type: a key of one of the four types `int64`, `uint64`,
-- `string` and `[]byte`, within the range of its type, reads back from its bytes; a key of a type
-- that is defined on one of the last two has no bytes, and reading one panics.
pub convert_type-get_key_byte :
    (type key : Key)
    → SameType type key
    → InRange key
    → ((is_defined key ≡ false)
        × (convert_type type (get_key_byte_for_key_constraint key) ≡ ok key))
      ⊎ ((is_defined key ≡ true)
          × (get_key_byte_for_key_constraint key ≡ [])
          × (convert_type type (get_key_byte_for_key_constraint key) ≡ panics))
unfolding convert_type get_key_byte_for_key_constraint
convert_type-get_key_byte (int64 _) (int64 v) s h =
    let e : v % 2 ^ 64 ≡ v = mod-eq_of_lt h in inl (refl, rw (e, get_uint64-put_uint64 v h))
convert_type-get_key_byte (uint64 _) (uint64 v) s h = inl (refl, rw (get_uint64-put_uint64 v h))
convert_type-get_key_byte (text _) (text v) s h = inl (refl, refl)
convert_type-get_key_byte (bytes _) (bytes v) s h = inl (refl, refl)
convert_type-get_key_byte (defined_text _) (defined_text v) s h = inr (refl, refl, refl)
convert_type-get_key_byte (defined_bytes _) (defined_bytes v) s h = inr (refl, refl, refl)
convert_type-get_key_byte _ _ s h = absurd s
