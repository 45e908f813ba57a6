-- ===== src/Aleo/Labelled.antt =====
-- A text of labelled values, such as the aleo node writes of a packet, and the words that
-- `parseMessage` of attestor/chainService/chain/aleo/utils.go gets from it.
use verulink.Base.{
  ℕ, ◌<◌, ◌≡◌, refl, sym, ap, ◌∙◌, true, List, [], ◌∷◌, ◌++◌, append_assoc, append-nil, map, Bytes,
  codes, arith, All, split,
}
use verulink.Chain.BigInt.{itoa}
use verulink.Aleo.Fields.{trim, split_all}
use verulink.Aleo.Digits.{all_digits, itoa-IsPlain}
use verulink.Aleo.Address.{word}
use verulink.Aleo.Address.Array.{between_words, trim-kept, trim-dropped}
use verulink.Aleo.Cut.{
  cut, plain, cut-plain, cut-plain_end, trim-plain, ends_plain, trim-append, split_all-split,
}

-- A value: a text, or an array of bytes, of one or more.
pub data Value : Type 0 where
  text : Bytes → Value
  array : ℕ → Bytes → Value

abbrev pub text_of : Value → Bytes
text_of (text w) = w
text_of (array b bs) = codes "[ " ++ (between_words (codes ", ") b bs ++ codes " ]")

abbrev pub words_of : Value → List Bytes
words_of (text w) = w ∷ []
words_of (array b bs) = map word (b ∷ bs)

abbrev pub IsStorable : Value → Type 0
IsStorable (text w) = plain w ≡ true
IsStorable (array b bs) = All (λ (n : ℕ). n < 256) (b ∷ bs)

-- A value with what stands in front of it, and the labels in that.
pub record Field : Type 0 where
  pub literal : Bytes
  pub labels : List Bytes
  pub value : Value

abbrev pub render : List Field → Bytes → Bytes
render [] end = end
render (f ∷ fs) end = f.literal ++ (text_of f.value ++ render fs end)

abbrev pub words : List Field → List Bytes
words [] = []
words (f ∷ fs) = f.labels ++ (words_of f.value ++ words fs)

-- Every label is followed by a colon.
abbrev pub label_text : List Bytes → Bytes
label_text [] = []
label_text (k ∷ ks) = k ++ b':' ∷ label_text ks

-- A field that begins with the separator, after the bytes that are dropped.
pub record IsField (separator : Bytes) (f : Field) : Type 0 where
  pub ends : ends_plain f.literal ≡ true
  pub trimmed : trim f.literal ≡ separator ++ label_text f.labels
  pub labels_plain : All (λ (k : Bytes). plain k ≡ true) f.labels
  pub value_plain : IsStorable f.value

abbrev plain_of : Value → Bytes
plain_of (text w) = w
plain_of (array b bs) = between_words (codes ",") b bs

abbrev more : List Field → Bytes
more [] = []
more (f ∷ fs) = b',' ∷ (label_text f.labels ++ (plain_of f.value ++ more fs))

plain-digits : (w rest : Bytes) → all_digits w ≡ true → plain rest ≡ true → plain (w ++ rest) ≡ true
plain-digits [] rest h r = r
plain-digits (c ∷ w) rest h r = ground (arith, plain-digits w rest)

plain-word : (b : ℕ) → b < 256 → plain (word b) ≡ true
plain-word b lt = plain-digits (itoa b) (codes "u8") (itoa-IsPlain b lt).digits refl

trim-between :
    (b : ℕ) (bs rest : Bytes)
    → All (λ (n : ℕ). n < 256) (b ∷ bs)
    → trim (between_words (codes ", ") b bs ++ rest) ≡ between_words (codes ",") b bs ++ trim rest
trim-between b [] rest h = trim-plain (word b) rest (plain-word b h.0)
trim-between b (c ∷ bs) rest h =
    let inner : Bytes = between_words (codes ", ") c bs in
    ap trim (append_assoc (word b) (codes ", " ++ inner) rest)
    ∙ trim-plain (word b) (codes ", " ++ (inner ++ rest)) (plain-word b h.0)
    ∙ ap (λ (t : Bytes). word b ++ t)
        (trim-kept b',' (b' ' ∷ (inner ++ rest)) refl refl
          ∙ ap (λ (t : Bytes). b',' ∷ t)
              (trim-dropped b' ' (inner ++ rest) refl refl ∙ trim-between c bs rest h.1))
    ∙ sym (append_assoc (word b) (codes "," ++ between_words (codes ",") c bs) (trim rest))

trim-text_of :
    (v : Value) (rest : Bytes) → IsStorable v → trim (text_of v ++ rest) ≡ plain_of v ++ trim rest
trim-text_of (text w) rest h = trim-plain w rest h
trim-text_of (array b bs) rest h =
    let inner : Bytes = between_words (codes ", ") b bs in
    trim-dropped b'[' (b' ' ∷ ((inner ++ codes " ]") ++ rest)) refl refl
    ∙ trim-dropped b' ' ((inner ++ codes " ]") ++ rest) refl refl
    ∙ ap trim (append_assoc inner (codes " ]") rest)
    ∙ trim-between b bs (codes " ]" ++ rest) h
    ∙ ap (λ (t : Bytes). between_words (codes ",") b bs ++ t)
        (trim-dropped b' ' (b']' ∷ rest) refl refl ∙ trim-dropped b']' rest refl refl)

trim-field :
    (separator : Bytes) (f : Field) (rest : Bytes)
    → IsField separator f
    → trim (f.literal ++ (text_of f.value ++ rest))
      ≡ separator ++ (label_text f.labels ++ (plain_of f.value ++ trim rest))
trim-field separator f rest h =
    trim-append f.literal (text_of f.value ++ rest) h.ends
    ∙ ap (λ (t : Bytes). t ++ trim (text_of f.value ++ rest)) h.trimmed
    ∙ append_assoc separator (label_text f.labels) (trim (text_of f.value ++ rest))
    ∙ ap (λ (t : Bytes). separator ++ (label_text f.labels ++ t))
        (trim-text_of f.value rest h.value_plain)

trim-render :
    (fs : List Field) (end : Bytes)
    → All (IsField (codes ",")) fs
    → trim end ≡ []
    → trim (render fs end) ≡ more fs
trim-render [] end h e = e
trim-render (f ∷ fs) end h e =
    trim-field (codes ",") f (render fs end) h.0
    ∙ ap (λ (t : Bytes). b',' ∷ (label_text f.labels ++ (plain_of f.value ++ t)))
        (trim-render fs end h.1 e)

cut-between :
    (b : ℕ) (bs rest : Bytes)
    → All (λ (n : ℕ). n < 256) (b ∷ bs)
    → cut (between_words (codes ",") b bs ++ b',' ∷ rest) ≡ map word (b ∷ bs) ++ cut rest
cut-between b [] rest h = cut-plain (word b) b',' rest (plain-word b h.0) refl
cut-between b (c ∷ bs) rest h =
    let inner : Bytes = between_words (codes ",") c bs in
    ap cut (append_assoc (word b) (codes "," ++ inner) (b',' ∷ rest))
    ∙ cut-plain (word b) b',' (inner ++ b',' ∷ rest) (plain-word b h.0) refl
    ∙ ap (λ (l : List Bytes). word b ∷ l) (cut-between c bs rest h.1)

cut-between_end :
    (b : ℕ) (bs : Bytes)
    → All (λ (n : ℕ). n < 256) (b ∷ bs)
    → cut (between_words (codes ",") b bs) ≡ map word (b ∷ bs)
cut-between_end b [] h = cut-plain_end (word b) (plain-word b h.0)
cut-between_end b (c ∷ bs) h =
    cut-plain (word b) b',' (between_words (codes ",") c bs) (plain-word b h.0) refl
    ∙ ap (λ (l : List Bytes). word b ∷ l) (cut-between_end c bs h.1)

cut-plain_of :
    (v : Value) (rest : Bytes)
    → IsStorable v
    → cut (plain_of v ++ b',' ∷ rest) ≡ words_of v ++ cut rest
cut-plain_of (text w) rest h = cut-plain w b',' rest h refl
cut-plain_of (array b bs) rest h = cut-between b bs rest h

cut-plain_of_end : (v : Value) → IsStorable v → cut (plain_of v) ≡ words_of v
cut-plain_of_end (text w) h = cut-plain_end w h
cut-plain_of_end (array b bs) h = cut-between_end b bs h

cut-label_text :
    (ks : List Bytes) (rest : Bytes)
    → All (λ (k : Bytes). plain k ≡ true) ks
    → cut (label_text ks ++ rest) ≡ ks ++ cut rest
cut-label_text [] rest h = refl
cut-label_text (k ∷ ks) rest h =
    ap cut (append_assoc k (b':' ∷ label_text ks) rest)
    ∙ cut-plain k b':' (label_text ks ++ rest) h.0 refl
    ∙ ap (λ (l : List Bytes). k ∷ l) (cut-label_text ks rest h.1)

cut-more :
    (separator : Bytes) (f : Field) (fs : List Field)
    → IsField separator f
    → All (IsField (codes ",")) fs
    → cut (label_text f.labels ++ (plain_of f.value ++ more fs)) ≡ words (f ∷ fs)
cut-more separator f [] h hs =
    cut-label_text f.labels (plain_of f.value ++ []) h.labels_plain
    ∙ ap (λ (l : List Bytes). f.labels ++ l)
        (ap cut (append-nil (plain_of f.value))
          ∙ cut-plain_of_end f.value h.value_plain
          ∙ sym (append-nil (words_of f.value)))
cut-more separator f (g ∷ fs) h hs =
    cut-label_text f.labels (plain_of f.value ++ more (g ∷ fs)) h.labels_plain
    ∙ ap (λ (l : List Bytes). f.labels ++ l)
        (cut-plain_of f.value (label_text g.labels ++ (plain_of g.value ++ more fs)) h.value_plain
          ∙ ap (λ (l : List Bytes). words_of f.value ++ l) (cut-more (codes ",") g fs hs.0 hs.1))

-- The words of a text of labelled values.
pub split_all-render :
    (f : Field) (fs : List Field) (end : Bytes)
    → IsField [] f
    → All (IsField (codes ",")) fs
    → trim end ≡ []
    → split_all (split b',' (trim (render (f ∷ fs) end))) ≡ words (f ∷ fs)
split_all-render f fs end h hs e =
    split_all-split (trim (render (f ∷ fs) end))
    ∙ ap cut (
        trim-field [] f (render fs end) h
        ∙ ap (λ (t : Bytes). label_text f.labels ++ (plain_of f.value ++ t))
            (trim-render fs end hs e))
    ∙ cut-more [] f fs h hs
