-- ===== src/Store/BaseSeq/Recorded.antt =====
-- Which numbers an ascending list records after an insertion or a removal, and up to where a scan
-- passes it.
use verulink.Base.{
  ℕ, zero, suc, ◌+◌, ◌<◌, ◌≤◌, ◌≡◌, ◌≢◌, ◌⊎◌, inl, inr, refl, List, [], ◌∷◌, map, take, ◌==◌, arith,
  if◌then◌else◌, Bool-cases, All,
}
use verulink.Store.Key.{put_uint64}
use verulink.Store.Key.Laws.{IsWord, eqb-put_uint64}
use verulink.Store.Bolt.Entries.{erase}
use verulink.Store.BaseSeq.Encoding.{SeqHeight, encode, AreWords, IsAscending, HasSeq, insert_seq}
use verulink.Store.BaseSeq.Gap.{passed}

unfoldable pub remove_seq : ℕ → List SeqHeight → List SeqHeight
remove_seq k [] = []
remove_seq k (p ∷ l) = if p.0 == k then l else p ∷ remove_seq k l

pub erase-map-encode :
    (k : ℕ) (l : List SeqHeight)
    → IsWord k
    → All AreWords l
    → erase (put_uint64 k) (map encode l) ≡ map encode (remove_seq k l)
unfolding erase remove_seq
erase-map-encode k [] wk wl = refl
erase-map-encode k ((t, g) ∷ l) wk wl =
    rw (eqb-put_uint64 t k wl.0.0 wk, erase-map-encode k l wk wl.1)
      (elim (Bool-cases (t == k)) [ inl same ↦ rw same | inr other ↦ rw other ])

pub All-remove_seq : (k : ℕ) (l : List SeqHeight) → All AreWords l → All AreWords (remove_seq k l)
unfolding remove_seq
All-remove_seq k [] w = tt
All-remove_seq k (p ∷ l) w = ground (arith, All-remove_seq k l w.1)

pub IsAscending-remove_seq :
    (k : ℕ) (l : List SeqHeight) → IsAscending l → IsAscending (remove_seq k l)
unfolding remove_seq
IsAscending-remove_seq k [] asc = tt
IsAscending-remove_seq k (p ∷ []) asc = ground arith
IsAscending-remove_seq k (p ∷ q ∷ []) asc = ground arith
IsAscending-remove_seq k (p ∷ q ∷ r ∷ l) asc =
    ground (arith, IsAscending-remove_seq k (q ∷ r ∷ l) asc.1)

pub HasSeq-remove_seq :
    (n k : ℕ) (l : List SeqHeight) → n ≢ k → HasSeq n l → HasSeq n (remove_seq k l)
unfolding remove_seq
HasSeq-remove_seq n k [] ne m = m
HasSeq-remove_seq n k (p ∷ l) ne m = elim (Bool-cases (p.0 == k)) [
  | inl same ↦ rw same (elim m [ inl here ↦ absurd (ground arith) | inr later ↦ later ])
  | inr other ↦
      rw other (elim m [ inl here ↦ inl here | inr later ↦ inr (HasSeq-remove_seq n k l ne later) ])
]

pub HasSeq-removed : (n k : ℕ) (l : List SeqHeight) → HasSeq n (remove_seq k l) → HasSeq n l
unfolding remove_seq
HasSeq-removed n k [] m = m
HasSeq-removed n k (p ∷ l) m = elim (Bool-cases (p.0 == k)) [
  | inl same ↦ inr (rw same at m)
  | inr other ↦ elim (rw other at m) [
    | inl here ↦ inl here
    | inr later ↦ inr (HasSeq-removed n k l later)
  ]
]

pub HasSeq-insert_seq : (n s h : ℕ) (l : List SeqHeight) → HasSeq n l → HasSeq n (insert_seq s h l)
unfolding insert_seq
HasSeq-insert_seq n s h [] m = absurd m
HasSeq-insert_seq n s h ((t, g) ∷ l) (inl e) = ground arith
HasSeq-insert_seq n s h ((t, g) ∷ l) (inr m) = ground (arith, HasSeq-insert_seq n s h l m)

pub HasSeq-inserted :
    (n s h : ℕ) (l : List SeqHeight) → HasSeq n (insert_seq s h l) → (n ≡ s) ⊎ HasSeq n l
unfolding insert_seq
HasSeq-inserted n s h [] m = m
HasSeq-inserted n s h ((t, g) ∷ l) m = ground (arith, HasSeq-inserted n s h l)

pub HasSeq-take : (n k : ℕ) (l : List SeqHeight) → HasSeq n (take k l) → HasSeq n l
HasSeq-take n zero l m = absurd m
HasSeq-take n (suc k) [] m = m
HasSeq-take n (suc k) (p ∷ l) (inl e) = inl e
HasSeq-take n (suc k) (p ∷ l) (inr m) = inr (HasSeq-take n k l m)

-- The last of the consecutive numbers at the front.
unfoldable pub frontier : SeqHeight → List SeqHeight → ℕ
frontier p [] = p.0
frontier p (q ∷ l) = let rest = frontier q l in if q.0 == p.0 + 1 then rest else p.0

pub HasSeq-frontier :
    (p : SeqHeight) (l : List SeqHeight) (n : ℕ) → p.0 ≤ n → n ≤ frontier p l → HasSeq n (p ∷ l)
unfolding frontier
HasSeq-frontier p [] n lo hi = inl (omega arith)
HasSeq-frontier p (q ∷ l) n lo hi = elim (Bool-cases (q.0 == p.0 + 1)) [
  | inl next ↦ elim (Bool-cases (n == p.0)) [
    | inl same ↦ inl (ground arith)
    | inr other ↦ inr (HasSeq-frontier q l n (ground arith) (rw next at hi))
  ]
  | inr far ↦ inl (let top : n ≤ p.0 = rw far at hi in omega arith)
]

pub frontier_ge : (p : SeqHeight) (l : List SeqHeight) → p.0 ≤ frontier p l
unfolding frontier
frontier_ge p [] = omega arith
frontier_ge p (q ∷ l) = ground (arith, frontier_ge q l)

-- What a scan passes lies below the frontier.
pub passed_lt-frontier :
    (p : SeqHeight) (l : List SeqHeight) → All (λ (n : ℕ). n < frontier p l) (passed p l)
unfolding frontier passed
passed_lt-frontier p [] = tt
passed_lt-frontier p (q ∷ l) = elim (Bool-cases (q.0 == p.0 + 1)) [
  | inl next ↦
      let top : q.0 ≤ frontier q l = frontier_ge q l in
      rw next ((ground arith, passed_lt-frontier q l))
  | inr far ↦ rw far tt
]

pub HasSeq-IsWord : (n : ℕ) (l : List SeqHeight) → All AreWords l → HasSeq n l → IsWord n
HasSeq-IsWord n [] w m = absurd m
HasSeq-IsWord n (p ∷ l) w (inl e) = omega (arith, w.0.0)
HasSeq-IsWord n (p ∷ l) w (inr m) = HasSeq-IsWord n l w.1 m
