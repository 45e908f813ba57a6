-- ===== src/Aleo/Address.antt =====
-- The addresses of attestor/chainService/chain/aleo/utils.go: what `parseMessage` joins from an array
-- of bytes is read as those bytes.
pub mod Array
use verulink.Base.{
  ℕ, zero, suc, ◌+◌, ◌<◌, ◌≤◌, ◌≡◌, inl, inr, refl, sym, ap, ◌∙◌, Bool, true, false, ◌&&◌, List, [],
  ◌∷◌, ◌++◌, append_assoc, append-nil, map, some, Option, Bytes, codes, ok, ltb, leb, ◌==◌, arith,
  All, length, drop, last?, remove_all, count, split, join, if◌then◌else◌, Bool-cases, starts_with,
  or_err, ◌>>=◌, none,
}
use verulink.Chain.BigInt.{itoa, emit}
use verulink.Aleo.Numerals.{any_base}
use verulink.Aleo.Parse.{parse_bytes, trim_left, trim_right, parse_aleo_eth_addr_to_hex_string}
use verulink.Aleo.Digits.{all_digits, nonempty, IsPlain, itoa-IsPlain}

-- A byte as an element of an array of the aleo program, and an array as `parseMessage` joins it.
abbrev pub word : ℕ → Bytes
word b = itoa b ++ codes "u8"

abbrev pub joined_words : Bytes → Bytes
joined_words bs = join b' ' (map word bs)

-- The suffix is taken from every word, and counted.
remove_all-digits :
    (w rest : Bytes)
    → all_digits w ≡ true
    → remove_all (codes "u8") 0 (w ++ (codes "u8" ++ rest)) ≡ w ++ remove_all (codes "u8") 0 rest
remove_all-digits [] rest h = refl
remove_all-digits (c ∷ w) rest h =
    let other : (b'u' == c) ≡ false = ground arith in
    rw (remove_all, starts_with, other, remove_all-digits w rest (ground arith))

count-digits :
    (w rest : Bytes)
    → all_digits w ≡ true
    → count (codes "u8") 0 (w ++ (codes "u8" ++ rest)) ≡ suc (count (codes "u8") 0 rest)
count-digits [] rest h = refl
count-digits (c ∷ w) rest h =
    let other : (b'u' == c) ≡ false = ground arith in
    rw (count, starts_with, other, count-digits w rest (ground arith))

remove_all-space :
    (s : Bytes) → remove_all (codes "u8") 0 (b' ' ∷ s) ≡ b' ' ∷ remove_all (codes "u8") 0 s
remove_all-space s = refl

count-space : (s : Bytes) → count (codes "u8") 0 (b' ' ∷ s) ≡ count (codes "u8") 0 s
count-space s = refl

remove_all-joined_words :
    (b : ℕ) (bs : Bytes)
    → All (λ (n : ℕ). n < 256) (b ∷ bs)
    → remove_all (codes "u8") 0 (joined_words (b ∷ bs)) ≡ join b' ' (map itoa (b ∷ bs))
remove_all-joined_words b [] h =
    remove_all-digits (itoa b) [] (itoa-IsPlain b h.0).digits ∙ append-nil (itoa b)
remove_all-joined_words b (c ∷ bs) h =
    rw
      (
        append_assoc (itoa b) (codes "u8") (b' ' ∷ joined_words (c ∷ bs)),
        remove_all-digits (itoa b) (b' ' ∷ joined_words (c ∷ bs)) (itoa-IsPlain b h.0).digits,
        remove_all-space (joined_words (c ∷ bs)),
        remove_all-joined_words c bs h.1,
      )
      refl

count-joined_words :
    (b : ℕ) (bs : Bytes)
    → All (λ (n : ℕ). n < 256) (b ∷ bs)
    → count (codes "u8") 0 (joined_words (b ∷ bs)) ≡ length (b ∷ bs)
count-joined_words b [] h = count-digits (itoa b) [] (itoa-IsPlain b h.0).digits
count-joined_words b (c ∷ bs) h =
    rw
      (
        append_assoc (itoa b) (codes "u8") (b' ' ∷ joined_words (c ∷ bs)),
        count-digits (itoa b) (b' ' ∷ joined_words (c ∷ bs)) (itoa-IsPlain b h.0).digits,
        count-space (joined_words (c ∷ bs)),
        count-joined_words c bs h.1,
      )
      refl

split-digits :
    (w rest : Bytes) → all_digits w ≡ true → split b' ' (w ++ b' ' ∷ rest) ≡ w ∷ split b' ' rest
split-digits [] rest h = refl
split-digits (c ∷ w) rest h =
    let other : (c == b' ') ≡ false = ground arith in
    rw (split, other, split-digits w rest (ground arith)) refl

split-plain : (w : Bytes) → all_digits w ≡ true → split b' ' w ≡ w ∷ []
split-plain [] h = refl
split-plain (c ∷ w) h =
    let other : (c == b' ') ≡ false = ground arith in
    rw (split, other, split-plain w (ground arith)) refl

split-join :
    (b : ℕ) (bs : Bytes)
    → All (λ (n : ℕ). n < 256) (b ∷ bs)
    → split b' ' (join b' ' (map itoa (b ∷ bs))) ≡ map itoa (b ∷ bs)
split-join b [] h = split-plain (itoa b) (itoa-IsPlain b h.0).digits
split-join b (c ∷ bs) h =
    split-digits (itoa b) (join b' ' (map itoa (c ∷ bs))) (itoa-IsPlain b h.0).digits
    ∙ ap (λ (l : List Bytes). itoa b ∷ l) (split-join c bs h.1)

-- A text that begins and ends with other bytes than blanks is not trimmed.
trim_left-first :
    (s rest : Bytes) → nonempty s ≡ true → all_digits s ≡ true → trim_left (s ++ rest) ≡ s ++ rest
trim_left-first [] rest n h = cc
trim_left-first (c ∷ s) rest n h = let other : (c == b' ') ≡ false = ground arith in rw other

trim_right-last : (s : Bytes) (d : ℕ) → last? s ≡ some d → (d == b' ') ≡ false → trim_right s ≡ s
trim_right-last [] d e h = cc
trim_right-last (c ∷ []) d e h = let same : c ≡ d = cc in rw (same, h)
trim_right-last (c ∷ x ∷ s) d e h = rw (trim_right, trim_right-last (x ∷ s) d e h)

last?-append : (s : Bytes) (x : ℕ) (t : Bytes) → last? (s ++ x ∷ t) ≡ last? (x ∷ t)
last?-append [] x t = refl
last?-append (c ∷ []) x t = refl
last?-append (c ∷ d ∷ s) x t = last?-append (d ∷ s) x t

last?-digits :
    (s : Bytes)
    → nonempty s ≡ true
    → all_digits s ≡ true
    → (d : ℕ) × (last? s ≡ some d) × ((d == b' ') ≡ false)
last?-digits [] n h = cc
last?-digits (c ∷ []) n h = (c, refl, ground arith)
last?-digits (c ∷ d ∷ s) n h = last?-digits (d ∷ s) refl (ground arith)

nonempty_cons : (s : Bytes) (d : ℕ) → last? s ≡ some d → (x : ℕ) × (t : Bytes) × (s ≡ x ∷ t)
nonempty_cons [] d e = cc
nonempty_cons (x ∷ t) d e = (x, t, refl)

last?-join :
    (b : ℕ) (bs : Bytes)
    → All (λ (n : ℕ). n < 256) (b ∷ bs)
    → (d : ℕ) × (last? (join b' ' (map itoa (b ∷ bs))) ≡ some d) × ((d == b' ') ≡ false)
last?-join b [] h =
    last?-digits (itoa b) (itoa-IsPlain b h.0).some_digit (itoa-IsPlain b h.0).digits
last?-join b (c ∷ bs) h =
    let (d, at, other) = last?-join c bs h.1 in
    let (e, more, joined) = nonempty_cons (join b' ' (map itoa (c ∷ bs))) d at in
    (
      d,
      last?-append (itoa b) b' ' (join b' ' (map itoa (c ∷ bs)))
          ∙ (rw joined refl ∙ ap last? (sym joined) ∙ at),
      other,
    )

trim_left-join :
    (b : ℕ) (bs : Bytes)
    → b < 256
    → trim_left (join b' ' (map itoa (b ∷ bs))) ≡ join b' ' (map itoa (b ∷ bs))
trim_left-join b [] lt =
    rw (← append-nil (itoa b))
      (trim_left-first (itoa b) [] (itoa-IsPlain b lt).some_digit (itoa-IsPlain b lt).digits)
trim_left-join b (c ∷ bs) lt =
    trim_left-first (itoa b) (b' ' ∷ join b' ' (map itoa (c ∷ bs))) (itoa-IsPlain b lt).some_digit
      (itoa-IsPlain b lt).digits

drop-map-itoa : (n : ℕ) (bs : Bytes) → drop n (map itoa bs) ≡ map itoa (drop n bs)
drop-map-itoa zero bs = refl
drop-map-itoa (suc n) [] = refl
drop-map-itoa (suc n) (b ∷ bs) = drop-map-itoa n bs

All-drop-bytes :
    (n : ℕ) (bs : Bytes) → All (λ (b : ℕ). b < 256) bs → All (λ (b : ℕ). b < 256) (drop n bs)
All-drop-bytes zero bs h = h
All-drop-bytes (suc n) [] h = tt
All-drop-bytes (suc n) (b ∷ bs) h = All-drop-bytes n bs h.1

parse_bytes-map-itoa :
    (bs : Bytes) → All (λ (b : ℕ). b < 256) bs → parse_bytes (map itoa bs) ≡ ok bs
parse_bytes-map-itoa [] h = refl
parse_bytes-map-itoa (b ∷ bs) h =
    let small : ltb b 256 ≡ true = ground arith in
    rw ((itoa-IsPlain b h.0).value, or_err, ◌>>=◌, small, parse_bytes-map-itoa bs h.1)

-- The text that `parseMessage` joins from an array of 32 bytes is read as the address of its last 20.
pub parse_aleo_eth_addr-joined_words :
    (bytes_to_address : Bytes → Bytes) (bs : Bytes)
    → All (λ (b : ℕ). b < 256) bs
    → length bs ≡ 32
    → parse_aleo_eth_addr_to_hex_string bytes_to_address (joined_words bs)
      ≡ ok (bytes_to_address (drop 12 bs))
unfolding parse_aleo_eth_addr_to_hex_string
parse_aleo_eth_addr-joined_words bytes_to_address [] h l = absurd (omega arith)
parse_aleo_eth_addr-joined_words bytes_to_address (b ∷ bs) h l =
    let (d, at, other) = last?-join b bs h in
    rw
      (
        count-joined_words b bs h,
        l,
        remove_all-joined_words b bs h,
        trim_left-join b bs h.0,
        trim_right-last (join b' ' (map itoa (b ∷ bs))) d at other,
        split-join b bs h,
        drop-map-itoa 12 (b ∷ bs),
        parse_bytes-map-itoa (drop 12 (b ∷ bs)) (All-drop-bytes 12 (b ∷ bs) h),
      )
      refl
