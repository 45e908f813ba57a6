-- ===== src/Proxy/Served.antt =====
-- What attestor/proxy/main.go answers to the questions of the aleo client
-- (attestor/chainService/chain/aleo) when the relay is measured.
use verulink.Base.{
  ℕ, suc, ◌<◌, ◌^◌, ◌≡◌, refl, ap, ◌∙◌, true, false, List, [], ◌∷◌, ◌++◌, append-nil, some, none,
  Bytes, codes, eqb, ok, All, arith, split, last?, Bool-cases, inl, inr, ltb, ◌==◌,
}
use verulink.Chain.BigInt.{
  ℤ, pos, negsuc, itoa, big_string, set_string, set_string-big_string, IsDigit, All-itoa,
}
use verulink.Aleo.Address.Array.{lacks, split-lacks, split-lacks_end}
use verulink.Proxy.{
  answer, packet_text, model_packet, contains, replace, dropped, first_prefix, requested_sequence,
  serve_http,
}

-- The last part of a request for a packet: the key of the mapping, with its braces escaped.
abbrev pub escaped_key : ℤ → ℕ → Bytes
escaped_key dst seq_num =
    (codes "%7Bchain_id:" ++ (big_string dst ++ codes "u128"))
    ++ b',' ∷ (codes "sequence:" ++ (itoa seq_num ++ codes "u64%7D"))

last?-snoc : (w : Bytes) (ws : List Bytes) (k : Bytes) → last? (w ∷ (ws ++ k ∷ [])) ≡ some k
last?-snoc w [] k = refl
last?-snoc w (v ∷ ws) k = last?-snoc v ws k

split-last :
    (sep : ℕ) (s key : Bytes)
    → lacks sep key ≡ true
    → (w : Bytes) × (ws : List Bytes) × (split sep (s ++ sep ∷ key) ≡ w ∷ (ws ++ key ∷ []))
split-last sep [] key h =
    let same : (sep == sep) ≡ true = ground arith in
    ([], [], rw (split, same, split-lacks_end sep key h))
split-last sep (c ∷ s) key h =
    let (w, ws, e) = split-last sep s key h in
    elim (Bool-cases (c == sep)) [
      | inl same ↦ ([], w ∷ ws, rw (split, same, e))
      | inr other ↦ (c ∷ w, ws, rw (split, other, e))
    ]

lacks-append :
    (sep : ℕ) (w rest : Bytes)
    → lacks sep w ≡ true
    → lacks sep rest ≡ true
    → lacks sep (w ++ rest) ≡ true
lacks-append sep [] rest h r = r
lacks-append sep (c ∷ w) rest h r = ground (arith, lacks-append sep w rest)

-- A byte below the digits that is no sign.
lacks-digits : (sep : ℕ) (w : Bytes) → sep < b'0' → All IsDigit w → lacks sep w ≡ true
lacks-digits sep [] h d = refl
lacks-digits sep (c ∷ w) h d =
    let other : (c == sep) ≡ false = ground arith in rw (other, lacks-digits sep w h d.1)

lacks-big_string :
    (sep : ℕ) (z : ℤ) → sep < b'0' → (b'-' == sep) ≡ false → lacks sep (big_string z) ≡ true
unfolding big_string
lacks-big_string sep (pos n) h o = lacks-digits sep (itoa n) h (All-itoa n)
lacks-big_string sep (negsuc n) h o = rw (o, lacks-digits sep (itoa (suc n)) h (All-itoa (suc n)))

replace_kept :
    (patterns : List Bytes) (c : ℕ) (s : Bytes)
    → first_prefix patterns (c ∷ s) ≡ none
    → replace patterns 0 (c ∷ s) ≡ c ∷ replace patterns 0 s
unfolding replace
replace_kept patterns c s e = rw (replace, e)

first_prefix-digit : (c : ℕ) (s : Bytes) → IsDigit c → first_prefix dropped (c ∷ s) ≡ none
first_prefix-digit c s h =
    let s' : (b's' == c) ≡ false = ground arith in
    let u : (b'u' == c) ≡ false = ground arith in
    let p : (b'%' == c) ≡ false = ground arith in rw (s', u, p)

replace-digits :
    (w rest : Bytes) → All IsDigit w → replace dropped 0 (w ++ rest) ≡ w ++ replace dropped 0 rest
replace-digits [] rest h = refl
replace-digits (c ∷ w) rest h =
    replace_kept dropped c (w ++ rest) (first_prefix-digit c (w ++ rest) (h.0.0, h.0.1))
    ∙ ap (λ (t : Bytes). c ∷ t) (replace-digits w rest h.1)

module _ (dst : ℤ) (seq_num : ℕ) where
  abbrev chain_part : Bytes
  chain_part = codes "%7Bchain_id:" ++ (big_string dst ++ codes "u128")

  abbrev sequence_part : Bytes
  sequence_part = codes "sequence:" ++ (itoa seq_num ++ codes "u64%7D")

  lacks_slash : lacks b'/' (escaped_key dst seq_num) ≡ true
  lacks_slash =
      lacks-append b'/' chain_part (b',' ∷ sequence_part)
        (lacks-append b'/' (big_string dst) (codes "u128")
          (lacks-big_string b'/' dst (omega arith) refl) refl)
        (lacks-append b'/' (itoa seq_num) (codes "u64%7D")
          (lacks-digits b'/' (itoa seq_num) (omega arith) (All-itoa seq_num)) refl)

  split_key : split b',' (escaped_key dst seq_num) ≡ chain_part ∷ sequence_part ∷ []
  split_key =
      split-lacks b',' chain_part sequence_part (
        lacks-append b',' (big_string dst) (codes "u128")
          (lacks-big_string b',' dst (omega arith) refl) refl)
      ∙ ap (λ (l : List Bytes). chain_part ∷ l)
          (split-lacks_end b',' sequence_part (
            lacks-append b',' (itoa seq_num) (codes "u64%7D")
              (lacks-digits b',' (itoa seq_num) (omega arith) (All-itoa seq_num)) refl))

  replaced : replace dropped 0 sequence_part ≡ itoa seq_num
  replaced =
      let tail : replace dropped 0 (codes "u64%7D") ≡ [] = unfold replace in refl in
      let head : replace dropped 0 sequence_part
          ≡ replace dropped 0 (itoa seq_num ++ codes "u64%7D") =
        unfold replace in refl in
      head
      ∙ replace-digits (itoa seq_num) (codes "u64%7D") (All-itoa seq_num)
      ∙ rw (tail, append-nil)

  requested_sequence-escaped_key :
      (s : Bytes) → requested_sequence (s ++ b'/' ∷ escaped_key dst seq_num) ≡ ok (itoa seq_num)
  unfolding requested_sequence
  requested_sequence-escaped_key s =
      let (w, ws, e) = split-last b'/' s (escaped_key dst seq_num) lacks_slash in
      rw (e, last?-snoc w ws (escaped_key dst seq_num), split_key, replaced) refl

-- When the relay is measured, a request for the packet of a number, in the range of `int`, is
-- answered with the model packet of that number. The url is of no other kind: it is not that of the
-- latest height, and the name of the collector is not in it.
pub serve_http-escaped_key :
    (s : Bytes) (dst : ℤ) (seq_num : ℕ)
    → seq_num < 2 ^ 63
    → eqb (s ++ b'/' ∷ escaped_key dst seq_num) (codes "/testnet/latest/height") ≡ false
    → contains (s ++ b'/' ∷ escaped_key dst seq_num) (codes "collector") ≡ false
    → serve_http (s ++ b'/' ∷ escaped_key dst seq_num)
      ≡ ok (answer 200 (packet_text (model_packet (pos seq_num))))
unfolding serve_http
serve_http-escaped_key s dst seq_num small no_height no_collector =
    let read : set_string (itoa seq_num) ≡ some (pos seq_num) =
      unfold big_string in set_string-big_string (pos seq_num) in
    let in_range : ltb seq_num (2 ^ 63) ≡ true = ground arith in
    rw (no_height, no_collector, requested_sequence-escaped_key dst seq_num s, read, in_range) refl
