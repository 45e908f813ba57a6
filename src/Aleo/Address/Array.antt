-- ===== src/Aleo/Address/Array.antt =====
-- `constructEthAddressForAleoParameter` of attestor/chainService/chain/aleo/utils.go writes the array
-- that `parseMessage` and `parseAleoEthAddrToHexString` read.
use verulink.Base.{
  ℕ, zero, suc, ◌-◌, ◌<◌, ◌≡◌, refl, sym, ap, ◌∙◌, Bool, true, false, not, ◌&&◌, List, [], ◌∷◌,
  ◌++◌, append_assoc, append-nil, map, Bytes, codes, ok, ◌==◌, ◌||◌, arith, All, length,
  length-append, take, split, join, ltb,
}
use verulink.Chain.BigInt.{itoa, emit}
use verulink.Aleo.Fields.{trim, is_dropped, split_all}
use verulink.Aleo.Parse.{
  repeat, byte_list, construct_eth_address_for_aleo_parameter, parse_aleo_eth_addr_to_hex_string,
}
use verulink.Aleo.Digits.{all_digits, itoa-IsPlain}
use verulink.Aleo.Address.{word, parse_aleo_eth_addr-joined_words}

-- The words with a separator between them.
abbrev pub between_words : Bytes → ℕ → Bytes → Bytes
between_words sep b [] = word b
between_words sep b (c ∷ bs) = word b ++ (sep ++ between_words sep c bs)

byte_list-between :
    (b : ℕ) (bs : Bytes) → byte_list (b ∷ bs) ≡ between_words (codes ", ") b bs ++ codes ", "
byte_list-between b [] =
    append_assoc (itoa b) (codes "u8, ") [] ∙ sym (append_assoc (itoa b) (codes "u8") (codes ", "))
byte_list-between b (c ∷ bs) =
    let rest : Bytes = between_words (codes ", ") c bs in
    append_assoc (itoa b) (codes "u8, ") (byte_list (c ∷ bs))
    ∙ ap (λ (t : Bytes). itoa b ++ (codes "u8, " ++ t)) (byte_list-between c bs)
    ∙ sym (append_assoc (itoa b) (codes "u8") (codes ", " ++ (rest ++ codes ", ")))
    ∙ sym (append_assoc (word b) (codes ", " ++ rest) (codes ", "))

-- The zeros in front.
abbrev padded : ℕ → Bytes → Bytes
padded zero bs = bs
padded (suc n) bs = 0 ∷ padded n bs

byte_list-padded :
    (n : ℕ) (bs : Bytes) → repeat n (codes "0u8, ") ++ byte_list bs ≡ byte_list (padded n bs)
unfolding itoa emit
byte_list-padded zero bs = refl
byte_list-padded (suc n) bs = ap (λ (t : Bytes). codes "0u8, " ++ t) (byte_list-padded n bs)

take-length : (s t : Bytes) → take (length s) (s ++ t) ≡ s
take-length [] t = refl
take-length (x ∷ s) t = ap (λ (r : Bytes). x ∷ r) (take-length s t)

take-append : (s t : Bytes) → take (length (s ++ t) - length t) (s ++ t) ≡ s
take-append s t =
    let short : length (s ++ t) - length t ≡ length s = omega (arith, length-append s t) in
    rw short (take-length s t)

pub trim-kept :
    (c : ℕ) (s : Bytes) → (c == b'\\') ≡ false → is_dropped c ≡ false → trim (c ∷ s) ≡ c ∷ trim s
unfolding trim
trim-kept c [] e h = ground arith
trim-kept c (d ∷ s) e h = ground arith

pub trim-dropped :
    (c : ℕ) (s : Bytes) → (c == b'\\') ≡ false → is_dropped c ≡ true → trim (c ∷ s) ≡ trim s
unfolding trim
trim-dropped c [] e h = ground arith
trim-dropped c (d ∷ s) e h = ground arith

-- A separator that a text lacks.
abbrev pub lacks : ℕ → Bytes → Bool
lacks sep [] = true
lacks sep (c ∷ s) = let rest = lacks sep s in not (c == sep) && rest

pub split-lacks :
    (sep : ℕ) (w rest : Bytes)
    → lacks sep w ≡ true
    → split sep (w ++ sep ∷ rest) ≡ w ∷ split sep rest
split-lacks sep [] rest h = let same : (sep == sep) ≡ true = ground arith in rw (split, same)
split-lacks sep (c ∷ w) rest h =
    let other : (c == sep) ≡ false = ground arith in
    rw (split, other, split-lacks sep w rest (ground arith)) refl

pub split-lacks_end : (sep : ℕ) (w : Bytes) → lacks sep w ≡ true → split sep w ≡ w ∷ []
split-lacks_end sep [] h = refl
split-lacks_end sep (c ∷ w) h =
    let other : (c == sep) ≡ false = ground arith in
    rw (split, other, split-lacks_end sep w (ground arith)) refl

lacks-digits :
    (sep : ℕ) (w : Bytes)
    → (ltb sep b'0' || ltb b'9' sep) ≡ true
    → (b'u' == sep) ≡ false
    → (b'8' == sep) ≡ false
    → all_digits w ≡ true
    → lacks sep (w ++ codes "u8") ≡ true
lacks-digits sep [] out u e h = ground arith
lacks-digits sep (c ∷ w) out u e h = ground (arith, lacks-digits sep w out u e)

split-words :
    (sep b : ℕ) (bs : Bytes)
    → (ltb sep b'0' || ltb b'9' sep) ≡ true
    → (b'u' == sep) ≡ false
    → (b'8' == sep) ≡ false
    → All (λ (n : ℕ). n < 256) (b ∷ bs)
    → split sep (between_words (sep ∷ []) b bs) ≡ map word (b ∷ bs)
split-words sep b [] out u e h =
    split-lacks_end sep (word b) (lacks-digits sep (itoa b) out u e (itoa-IsPlain b h.0).digits)
split-words sep b (c ∷ bs) out u e h =
    split-lacks sep (word b) (between_words (sep ∷ []) c bs)
      (lacks-digits sep (itoa b) out u e (itoa-IsPlain b h.0).digits)
    ∙ ap (λ (l : List Bytes). word b ∷ l) (split-words sep c bs out u e h.1)

split_all-words : (bs : Bytes) → All (λ (n : ℕ). n < 256) bs → split_all (map word bs) ≡ map word bs
split_all-words [] h = refl
split_all-words (b ∷ bs) h =
    let one : split b':' (word b) ≡ word b ∷ [] =
      split-lacks_end b':' (word b)
        (lacks-digits b':' (itoa b) refl refl refl (itoa-IsPlain b h.0).digits) in
    rw (one, split_all-words bs h.1)

-- The replacer of `parseMessage` keeps the bytes of the words.
trim-digits : (w rest : Bytes) → all_digits w ≡ true → trim (w ++ rest) ≡ w ++ trim rest
trim-digits [] rest h = refl
trim-digits (c ∷ w) rest h =
    trim-kept c (w ++ rest) (ground arith) (ground arith)
    ∙ ap (λ (t : Bytes). c ∷ t) (trim-digits w rest (ground arith))

trim-word : (b : ℕ) (rest : Bytes) → b < 256 → trim (word b ++ rest) ≡ word b ++ trim rest
trim-word b rest lt =
    ap trim (append_assoc (itoa b) (codes "u8") rest)
    ∙ trim-digits (itoa b) (codes "u8" ++ rest) (itoa-IsPlain b lt).digits
    ∙ ap (λ (t : Bytes). itoa b ++ t)
        (trim-kept b'u' (b'8' ∷ rest) refl refl
          ∙ ap (λ (t : Bytes). b'u' ∷ t) (trim-kept b'8' rest refl refl))
    ∙ sym (append_assoc (itoa b) (codes "u8") (trim rest))

trim_end : trim (codes " ]") ≡ []
unfolding trim
trim_end = refl

trim-between :
    (b : ℕ) (bs : Bytes)
    → All (λ (n : ℕ). n < 256) (b ∷ bs)
    → trim (between_words (codes ", ") b bs ++ codes " ]") ≡ between_words (codes ",") b bs
trim-between b [] h =
    trim-word b (codes " ]") h.0 ∙ ap (λ (t : Bytes). word b ++ t) trim_end ∙ append-nil (word b)
trim-between b (c ∷ bs) h =
    let rest : Bytes = between_words (codes ", ") c bs in
    ap trim (append_assoc (word b) (codes ", " ++ rest) (codes " ]"))
    ∙ trim-word b (codes ", " ++ (rest ++ codes " ]")) h.0
    ∙ ap (λ (t : Bytes). word b ++ t)
        (trim-kept b',' (b' ' ∷ (rest ++ codes " ]")) refl refl
          ∙ ap (λ (t : Bytes). b',' ∷ t)
              (trim-dropped b' ' (rest ++ codes " ]") refl refl ∙ trim-between c bs h.1))

All-padded :
    (n : ℕ) (bs : Bytes) → All (λ (b : ℕ). b < 256) bs → All (λ (b : ℕ). b < 256) (padded n bs)
All-padded zero bs h = h
All-padded (suc n) bs h = (omega arith, All-padded n bs h)

module _ (hex_to_address : Bytes → Bytes) (s : Bytes)
    (bytes : All (λ (b : ℕ). b < 256) (hex_to_address s))
    (twenty : length (hex_to_address s) ≡ 20) where
  abbrev array : Bytes
  array = padded 11 (hex_to_address s)

  constructed :
      construct_eth_address_for_aleo_parameter hex_to_address s
      ≡ codes "[ " ++ (between_words (codes ", ") 0 array ++ codes " ]")
  unfolding construct_eth_address_for_aleo_parameter
  constructed =
      let text : repeat 12 (codes "0u8, ") ++ byte_list (hex_to_address s)
          ≡ between_words (codes ", ") 0 array ++ codes ", " =
        byte_list-padded 12 (hex_to_address s) ∙ byte_list-between 0 array in
      let body : Bytes = between_words (codes ", ") 0 array in
      let whole : codes "[ "
            ++ repeat (32 - length (hex_to_address s)) (codes "0u8, ")
            ++ byte_list (hex_to_address s)
          ≡ (codes "[ " ++ body) ++ codes ", " =
        rw twenty (ap (λ (t : Bytes). b'[' ∷ b' ' ∷ t) text) in
      ap (λ (t : Bytes). take (length t - 2) t ++ codes " ]") whole
      ∙ ap (λ (t : Bytes). t ++ codes " ]") (take-append (codes "[ " ++ body) (codes ", "))

  -- The address that is written for the aleo program, cut into words as `parseMessage` does and
  -- joined again, is read as the same 20 bytes.
  pub parse_aleo_eth_addr-construct :
      (bytes_to_address : Bytes → Bytes)
      → parse_aleo_eth_addr_to_hex_string bytes_to_address (
          join b' ' (
            split_all
              (split b',' (trim (construct_eth_address_for_aleo_parameter hex_to_address s)))))
        ≡ ok (bytes_to_address (hex_to_address s))
  parse_aleo_eth_addr-construct bytes_to_address =
      let all : All (λ (b : ℕ). b < 256) (0 ∷ array) = All-padded 12 (hex_to_address s) bytes in
      let trimmed : trim (construct_eth_address_for_aleo_parameter hex_to_address s)
          ≡ between_words (codes ",") 0 array =
        ap trim constructed
        ∙ trim-dropped b'[' (b' ' ∷ (between_words (codes ", ") 0 array ++ codes " ]")) refl refl
        ∙ trim-dropped b' ' (between_words (codes ", ") 0 array ++ codes " ]") refl refl
        ∙ trim-between 0 array all in
      let words : split_all (split b',' (between_words (codes ",") 0 array))
          ≡ map word (0 ∷ array) =
        ap split_all (split-words b',' 0 array refl refl refl all)
        ∙ split_all-words (0 ∷ array) all in
      rw (trimmed, words)
        (parse_aleo_eth_addr-joined_words bytes_to_address (0 ∷ array) all (omega (arith, twenty)))
