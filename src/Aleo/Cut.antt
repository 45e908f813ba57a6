-- ===== src/Aleo/Cut.antt =====
-- `parseMessage` of attestor/chainService/chain/aleo/utils.go drops some bytes of a text and cuts it at
-- commas and colons: the words that it gets of fields with a value each.
use verulink.Base.{
  ℕ, ◌≡◌, inl, inr, refl, ap, ◌∙◌, Bool, true, false, not, ◌&&◌, ◌||◌, List, [], ◌∷◌, ◌++◌, Bytes,
  ◌==◌, arith, onto_first, split, if◌then◌else◌, Bool-cases,
}
use verulink.Aleo.Fields.{trim, is_dropped, split_all}
use verulink.Aleo.Address.Array.{trim-kept, trim-dropped}

-- One cut at both separators, in place of one cut after the other.
abbrev is_separator : ℕ → Bool
is_separator c = c == b',' || c == b':'

pub cut : Bytes → List Bytes
cut [] = [] ∷ []
cut (c ∷ s) = let rest = cut s in if is_separator c then [] ∷ rest else onto_first c rest

onto_first-append :
    (c : ℕ) (w : Bytes) (ws xs : List Bytes)
    → onto_first c ((w ∷ ws) ++ xs) ≡ onto_first c (w ∷ ws) ++ xs
onto_first-append c w ws xs = refl

split_cons : (sep : ℕ) (s : Bytes) → (w : Bytes) × (ws : List Bytes) × (split sep s ≡ w ∷ ws)
split_cons sep [] = ([], [], refl)
split_cons sep (c ∷ s) =
    let (w, ws, e) = split_cons sep s in
    elim (Bool-cases (c == sep)) [
      | inl same ↦ ([], split sep s, rw same)
      | inr other ↦ (c ∷ w, ws, rw (other, e))
    ]

pub split_all-split : (s : Bytes) → split_all (split b',' s) ≡ cut s
unfolding cut
split_all-split [] = refl
split_all-split (c ∷ s) =
    let (w, ws, e) = split_cons b',' s in
    let ih : split b':' w ++ split_all ws ≡ cut s = rw e at (split_all-split s) in
    elim (Bool-cases (c == b',')) [
      | inl comma ↦ rw comma (ap (λ (l : List Bytes). [] ∷ l) (split_all-split s))
      | inr other ↦ elim (Bool-cases (c == b':')) [
        | inl colon ↦ rw (other, e, colon) (ap (λ (l : List Bytes). [] ∷ l) ih)
        | inr plain ↦
            let (v, vs, f) = split_cons b':' w in
            let ih' : (v ∷ vs) ++ split_all ws ≡ cut s = rw f at ih in
            rw (other, e, plain, f) (ap (onto_first c) ih')
      ]
    ]

cut-onto : (c : ℕ) (s : Bytes) → is_separator c ≡ false → cut (c ∷ s) ≡ onto_first c (cut s)
unfolding cut
cut-onto c s h = rw h

-- A byte of a word: `trim` keeps it, and nothing is cut at it.
abbrev pub is_plain : ℕ → Bool
is_plain c = not (c == b'\\') && not (is_dropped c) && not (is_separator c)

abbrev pub plain : Bytes → Bool
plain [] = true
plain (c ∷ w) = let rest = plain w in is_plain c && rest

pub cut-plain :
    (w : Bytes) (sep : ℕ) (rest : Bytes)
    → plain w ≡ true
    → is_separator sep ≡ true
    → cut (w ++ sep ∷ rest) ≡ w ∷ cut rest
cut-plain [] sep rest h is = unfold cut in rw is
cut-plain (c ∷ w) sep rest h is =
    cut-onto c (w ++ sep ∷ rest) (ground arith)
    ∙ ap (onto_first c) (cut-plain w sep rest (ground arith) is)

pub cut-plain_end : (w : Bytes) → plain w ≡ true → cut w ≡ w ∷ []
cut-plain_end [] h = unfold cut in refl
cut-plain_end (c ∷ w) h =
    cut-onto c w (ground arith) ∙ ap (onto_first c) (cut-plain_end w (ground arith))

pub trim-plain : (w rest : Bytes) → plain w ≡ true → trim (w ++ rest) ≡ w ++ trim rest
trim-plain [] rest h = refl
trim-plain (c ∷ w) rest h =
    trim-kept c (w ++ rest) (ground arith) (ground arith)
    ∙ ap (λ (t : Bytes). c ∷ t) (trim-plain w rest (ground arith))

-- The last byte is no backslash, so that the replacer sees no pattern across the end.
abbrev pub ends_plain : Bytes → Bool
ends_plain [] = true
ends_plain (c ∷ []) = not (c == b'\\')
ends_plain (c ∷ d ∷ s) = ends_plain (d ∷ s)

ends_plain-tail : (c : ℕ) (s : Bytes) → ends_plain (c ∷ s) ≡ true → ends_plain s ≡ true
ends_plain-tail c [] h = refl
ends_plain-tail c (d ∷ s) h = h

trim_newline : (c d : ℕ) (s : Bytes) → (c == b'\\' && d == b'n') ≡ true → trim (c ∷ d ∷ s) ≡ trim s
unfolding trim
trim_newline c d s h = ground arith

trim_other :
    (c d : ℕ) (s : Bytes)
    → (c == b'\\' && d == b'n') ≡ false
    → trim (c ∷ d ∷ s) ≡ (if is_dropped c then trim (d ∷ s) else c ∷ trim (d ∷ s))
unfolding trim
trim_other c d s h = ground arith

pub trim-append : (s rest : Bytes) → ends_plain s ≡ true → trim (s ++ rest) ≡ trim s ++ trim rest
trim-append [] rest h = unfold trim in refl
trim-append (c ∷ []) rest h = elim (Bool-cases (is_dropped c)) [
  | inl dropped ↦ trim-dropped c rest (ground arith) dropped ∙ (unfold trim in rw dropped)
  | inr kept ↦ trim-kept c rest (ground arith) kept ∙ (unfold trim in rw kept)
]
trim-append (c ∷ d ∷ s) rest h = elim (Bool-cases (c == b'\\' && d == b'n')) [
  | inl newline ↦
      rw (trim_newline c d s newline)
        (trim_newline c d (s ++ rest) newline ∙ trim-append s rest (ends_plain-tail d s h))
  | inr other ↦
      let ih : trim (d ∷ (s ++ rest)) ≡ trim (d ∷ s) ++ trim rest = trim-append (d ∷ s) rest h in
      rw (trim_other c d s other) (
        trim_other c d (s ++ rest) other ∙ elim (Bool-cases (is_dropped c)) [
          | inl dropped ↦ rw dropped ih
          | inr kept ↦ rw kept (ap (λ (t : Bytes). c ∷ t) ih)
        ])
]
