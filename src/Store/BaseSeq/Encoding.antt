-- ===== src/Store/BaseSeq/Encoding.antt =====
-- How delivered sequence numbers stand in a bucket, and the operations on the abstract view.
use verulink.Base.{
  inl, inr, Bool-cases, ℕ, zero, suc, ◌+◌, ◌^◌, ◌%◌, ◌<◌, ◌≡◌, ◌⊎◌, refl, ap, List, [], ◌∷◌, map,
  Bytes, ◌==◌, ltb, ok, arith, length, if◌then◌else◌, All,
}
use verulink.Store.Key.{uint64, put_uint64, get_key_byte_for_key_constraint}
use verulink.Store.Key.Laws.{
  IsWord, get_uint64-put_uint64, bytes_lt-put_uint64, eqb-put_uint64, length-put_uint64,
}
use verulink.Store.Bolt.{IsStorable}
use verulink.Store.Bolt.Entries.{Entry, insert}
use verulink.Store.Db.{stored_height, next_number}

-- A sequence number and the height of its packet.
abbrev pub SeqHeight : Type 0
SeqHeight = ℕ × ℕ

-- Height 0 is stored as no bytes.
unfoldable pub encode_height : ℕ → Bytes
encode_height zero = []
encode_height (suc h) = put_uint64 (suc h)

pub encode_height-IsStorable : (h : ℕ) → IsStorable (encode_height h)
unfolding encode_height
encode_height-IsStorable zero = omega arith
encode_height-IsStorable (suc h) = omega (arith, length-put_uint64 (suc h))

-- The value that `StoreBaseSeqNum` puts.
pub height_value-IsStorable :
    (h : ℕ) → IsStorable (if h == 0 then [] else get_key_byte_for_key_constraint (uint64 h))
unfolding get_key_byte_for_key_constraint
height_value-IsStorable h = elim (Bool-cases (h == 0)) [
  | inl is_zero ↦ rw is_zero (omega arith)
  | inr other ↦ rw other (omega (arith, length-put_uint64 h))
]

abbrev pub encode : SeqHeight → Entry
encode (s, h) = (put_uint64 s, encode_height h)

abbrev pub AreWords : SeqHeight → Type 0
AreWords (s, h) = IsWord s × IsWord h

abbrev pub IsAscending : List SeqHeight → Type 0
IsAscending [] = Unit
IsAscending (p ∷ []) = Unit
IsAscending (p ∷ q ∷ l) = (p.0 < q.0) × IsAscending (q ∷ l)

-- A number that is recorded.
abbrev pub HasSeq : ℕ → List SeqHeight → Type 0
HasSeq n [] = ⊥
HasSeq n (p ∷ l) = (n ≡ p.0) ⊎ HasSeq n l

-- Ascending insertion; a number that is there takes the new height.
unfoldable pub insert_seq : ℕ → ℕ → List SeqHeight → List SeqHeight
insert_seq s h [] = (s, h) ∷ []
insert_seq s h ((t, g) ∷ l) =
    if ltb s t
    then (s, h) ∷ (t, g) ∷ l
    else if t == s
    then (s, h) ∷ l
    else (t, g) ∷ insert_seq s h l

pub put_uint64_nonempty : (n : ℕ) → put_uint64 n ≡ [] → ⊥
put_uint64_nonempty n e = omega (arith, length-put_uint64 n, ap length e)

nonempty_cases : (s : Bytes) → 0 < length s → (b : ℕ) × (r : Bytes) × (s ≡ b ∷ r)
nonempty_cases [] h = absurd (omega arith)
nonempty_cases (b ∷ r) h = (b, r, refl)

word_cases : (n : ℕ) → (b : ℕ) × (r : Bytes) × (put_uint64 n ≡ b ∷ r)
word_cases n = nonempty_cases (put_uint64 n) (omega (arith, length-put_uint64 n))

pub stored_height-encode : (h : ℕ) → IsWord h → stored_height (encode_height h) ≡ ok h
unfolding encode_height stored_height
stored_height-encode zero w = refl
stored_height-encode (suc h) w =
    let (b, r, e) = word_cases (suc h) in rw e (rw (← e) (get_uint64-put_uint64 (suc h) w))

pub next_number-put_uint64 : (n : ℕ) → IsWord n → next_number (put_uint64 n) ≡ ok ((n + 1) % 2 ^ 64)
unfolding next_number
next_number-put_uint64 n w =
    let (b, r, e) = word_cases n in rw e (rw (← e) (rw (get_uint64-put_uint64 n w)))

-- The bytes are inserted where the numbers are.
pub insert-map-encode :
    (s h : ℕ) (l : List SeqHeight)
    → IsWord s
    → All AreWords l
    → insert (put_uint64 s) (encode_height h) (map encode l) ≡ map encode (insert_seq s h l)
unfolding insert insert_seq
insert-map-encode s h [] ws wl = refl
insert-map-encode s h ((t, g) ∷ l) ws wl =
    rw
      (
        bytes_lt-put_uint64 s t ws wl.0.0,
        eqb-put_uint64 t s wl.0.0 ws,
        insert-map-encode s h l ws wl.1,
      )
      (ground arith)

pub All-insert_seq :
    (s h : ℕ) (l : List SeqHeight)
    → AreWords (s, h)
    → All AreWords l
    → All AreWords (insert_seq s h l)
unfolding insert_seq
All-insert_seq s h [] w wl = (w, tt)
All-insert_seq s h ((t, g) ∷ l) w wl = ground (arith, All-insert_seq s h l w wl.1)

pub IsAscending-insert_seq :
    (s h : ℕ) (l : List SeqHeight) → IsAscending l → IsAscending (insert_seq s h l)
unfolding insert_seq
IsAscending-insert_seq s h [] asc = tt
IsAscending-insert_seq s h (p ∷ []) asc = ground arith
IsAscending-insert_seq s h (p ∷ q ∷ l) asc =
    ground (arith, IsAscending-insert_seq s h (q ∷ l) asc.1)
