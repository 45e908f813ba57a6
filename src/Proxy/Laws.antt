-- ===== src/Proxy/Laws.antt =====
-- The aleo client (attestor/chainService/chain/aleo) reads off the text that attestor/proxy/main.go
-- writes of a packet, cut into labelled values.
use verulink.Base.{
  ℕ, ◌<◌, ◌^◌, ◌≡◌, refl, ap, ◌∙◌, true, [], ◌∷◌, ◌++◌, append_assoc, map, List, Bytes, codes, All,
  length, arith, split, ok,
}
use verulink.Chain.BigInt.{ℤ, pos, itoa, big_string}
use verulink.Aleo.Fields.{trim, split_all, parse_message}
use verulink.Aleo.Amounts.{plain-big_string, big_string-IsQuiet}
use verulink.Aleo.Labelled.{
  Value, text, array, text_of, words_of, Field, render, IsStorable, IsField, words, label_text,
  split_all-render,
}
use verulink.Aleo.Address.{word}
use verulink.Aleo.Cut.{plain, ends_plain}
use verulink.Aleo.Loop.{IsQuiet, words-IsQuiet}
use verulink.Aleo.Words.{PacketWords, packet_words, packet_of, IsPacket, checked-packet_words}
use verulink.Proxy.{Printed, packet_text}

abbrev pub array_value : Bytes → Value
array_value [] = text []
array_value (b ∷ bs) = array b bs

-- What a packet holds, and the arguments that print it: the arrays as the aleo program has them.
pub record Content : Type 0 where
  pub version : ℕ
  pub sequence : ℕ
  pub source_chain_id : ℤ
  pub source_address : Bytes
  pub dest_chain_id : ℤ
  pub destination : Bytes
  pub sender : Bytes
  pub token : Bytes
  pub amount : ℕ
  pub receiver : Bytes
  pub height : ℕ

abbrev pub printed : Content → Printed
printed c = record {
  version = c.version;
  sequence = pos c.sequence;
  source_chain_id = c.source_chain_id;
  source_address = c.source_address;
  dest_chain_id = c.dest_chain_id;
  dest_address = text_of (array_value c.destination);
  sender_address = c.sender;
  dest_token_address = text_of (array_value c.token);
  amount = itoa c.amount;
  receiver_address = text_of (array_value c.receiver);
  height = c.height;
}

abbrev pub IsArray : Bytes → Type 0
IsArray bs = All (λ (b : ℕ). b < 256) bs × (length bs ≡ 32)

-- The numbers fit their types, the arrays have 32 bytes, and the addresses of the aleo chain can
-- stand between the separators.
pub record IsContent (c : Content) : Type 0 where
  pub version : c.version < 256
  pub sequence : c.sequence < 2 ^ 64
  pub source_plain : plain c.source_address ≡ true
  pub source_quiet : IsQuiet c.source_address
  pub destination : IsArray c.destination
  pub sender_plain : plain c.sender ≡ true
  pub sender_quiet : IsQuiet c.sender
  pub token : IsArray c.token
  pub receiver : IsArray c.receiver
  pub height : c.height < 2 ^ 64

abbrev field : Bytes → List Bytes → Value → Field
field literal labels value = record { literal = literal; labels = labels; value = value }

abbrev pub first_field : Content → Field
first_field c =
    field (codes "{\\n  version: ") (codes "version" ∷ []) (text (itoa c.version ++ codes "u8"))

abbrev pub later_fields : Content → List Field
later_fields c =
    field (codes ",\\n  sequence: ") (codes "sequence" ∷ []) (text (itoa c.sequence ++ codes "u64"))
    ∷ field (codes " ,\\n  source: {\\n    chain_id: ") (codes "source" ∷ codes "chain_id" ∷ [])
        (text (big_string c.source_chain_id ++ codes "u128"))
    ∷ field (codes ",\\n    addr: ") (codes "addr" ∷ []) (text c.source_address)
    ∷ field (codes "\\n  },\\n  destination: {\\n    chain_id: ")
        (codes "destination" ∷ codes "chain_id" ∷ [])
        (text (big_string c.dest_chain_id ++ codes "u128"))
    ∷ field (codes ",\\n    addr: ") (codes "addr" ∷ []) (array_value c.destination)
    ∷ field (codes "},\\n  message: {\\n        sender_address: ")
        (codes "message" ∷ codes "sender_address" ∷ []) (text c.sender)
    ∷ field (codes ",\\n  dest_token_address: ") (codes "dest_token_address" ∷ [])
        (array_value c.token)
    ∷ field (codes ",\\n  amount: ") (codes "amount" ∷ []) (text (itoa c.amount ++ codes "u128"))
    ∷ field (codes ",\\n  receiver_address: ") (codes "receiver_address" ∷ [])
        (array_value c.receiver)
    ∷ field (codes "\\n     },\\n  height: ") (codes "height" ∷ [])
        (text (itoa c.height ++ codes "u64"))
    ∷ []

packet_text-render :
    (c : Content) → packet_text (printed c) ≡ render (first_field c ∷ later_fields c) (codes "\\n}")
unfolding packet_text big_string
packet_text-render c = simp append_assoc

array_value-IsStorable : (bs : Bytes) → IsArray bs → IsStorable (array_value bs)
array_value-IsStorable [] h = refl
array_value-IsStorable (b ∷ bs) h = h.0

words_of-array_value : (bs : Bytes) → IsArray bs → words_of (array_value bs) ≡ map word bs
words_of-array_value [] h = absurd (omega (arith, h.1))
words_of-array_value (b ∷ bs) h = refl

plain-number : (n : ℕ) (suffix : Bytes) → plain suffix ≡ true → plain (itoa n ++ suffix) ≡ true
plain-number n suffix h = unfold big_string in plain-big_string (pos n) suffix h

first_field-IsField : (c : Content) → IsField [] (first_field c)
unfolding trim
first_field-IsField c = record {
  ends = refl;
  trimmed = refl;
  labels_plain = (refl, tt);
  value_plain = plain-number c.version (codes "u8") refl;
}

-- A field with one label, and one with two.
labelled :
    (literal k : Bytes) (v : Value)
    → ends_plain literal ≡ true
    → trim literal ≡ codes "," ++ label_text (k ∷ [])
    → plain k ≡ true
    → IsStorable v
    → IsField (codes ",") (field literal (k ∷ []) v)
labelled literal k v e t l i = record {
  ends = e;
  trimmed = t;
  labels_plain = (l, tt);
  value_plain = i;
}

labelled_twice :
    (literal k j : Bytes) (v : Value)
    → ends_plain literal ≡ true
    → trim literal ≡ codes "," ++ label_text (k ∷ j ∷ [])
    → plain k ≡ true
    → plain j ≡ true
    → IsStorable v
    → IsField (codes ",") (field literal (k ∷ j ∷ []) v)
labelled_twice literal k j v e t l m i = record {
  ends = e;
  trimmed = t;
  labels_plain = (l, (m, tt));
  value_plain = i;
}

later_fields-IsField : (c : Content) → IsContent c → All (IsField (codes ",")) (later_fields c)
unfolding trim
later_fields-IsField c h = (
  labelled _ _ _ refl refl refl (plain-number c.sequence (codes "u64") refl),
  (
    labelled_twice _ _ _ _ refl refl refl refl
        (plain-big_string c.source_chain_id (codes "u128") refl),
    (
      labelled _ _ _ refl refl refl h.source_plain,
      (
        labelled_twice _ _ _ _ refl refl refl refl
            (plain-big_string c.dest_chain_id (codes "u128") refl),
        (
          labelled _ _ _ refl refl refl (array_value-IsStorable c.destination h.destination),
          (
            labelled_twice _ _ _ _ refl refl refl refl h.sender_plain,
            (
              labelled _ _ _ refl refl refl (array_value-IsStorable c.token h.token),
              (
                labelled _ _ _ refl refl refl (plain-number c.amount (codes "u128") refl),
                (
                  labelled _ _ _ refl refl refl (array_value-IsStorable c.receiver h.receiver),
                  (labelled _ _ _ refl refl refl (plain-number c.height (codes "u64") refl), tt),
                ),
              ),
            ),
          ),
        ),
      ),
    ),
  ),
)

-- The words between the names.
abbrev pub content_words : Content → PacketWords
content_words c = record {
  version = itoa c.version ++ codes "u8";
  sequence = itoa c.sequence ++ codes "u64";
  source_chain_id = big_string c.source_chain_id ++ codes "u128";
  source_address = c.source_address;
  dest_chain_id = big_string c.dest_chain_id ++ codes "u128";
  destination = map word c.destination;
  sender = c.sender;
  token = map word c.token;
  amount = itoa c.amount ++ codes "u128";
  receiver = map word c.receiver;
  height = itoa c.height ++ codes "u64";
}

words_lem :
    (c : Content)
    → IsContent c
    → words (first_field c ∷ later_fields c) ≡ packet_words (content_words c)
words_lem c h =
    rw
      (
        words_of-array_value c.destination h.destination,
        words_of-array_value c.token h.token,
        words_of-array_value c.receiver h.receiver,
      )
      refl

length-map-word : (bs : Bytes) → length (map word bs) ≡ length bs
length-map-word [] = refl
length-map-word (b ∷ bs) = omega (arith, length-map-word bs)

number-IsQuiet : (n : ℕ) (suffix : Bytes) → IsQuiet (itoa n ++ suffix)
number-IsQuiet n suffix = unfold big_string in big_string-IsQuiet (pos n) suffix

content_words-IsPacket : (c : Content) → IsContent c → IsPacket (content_words c)
content_words-IsPacket c h = record {
  version = number-IsQuiet c.version (codes "u8");
  sequence = number-IsQuiet c.sequence (codes "u64");
  source_chain_id = big_string-IsQuiet c.source_chain_id (codes "u128");
  source_address = h.source_quiet;
  dest_chain_id = big_string-IsQuiet c.dest_chain_id (codes "u128");
  destination = words-IsQuiet c.destination h.destination.0;
  destination_length = length-map-word c.destination ∙ h.destination.1;
  sender = h.sender_quiet;
  token = words-IsQuiet c.token h.token.0;
  token_length = length-map-word c.token ∙ h.token.1;
  amount = number-IsQuiet c.amount (codes "u128");
  receiver = words-IsQuiet c.receiver h.receiver.0;
  receiver_length = length-map-word c.receiver ∙ h.receiver.1;
  height = number-IsQuiet c.height (codes "u64");
}

-- The fields are found in the text.
pub parse_message-packet_text :
    (c : Content)
    → IsContent c
    → parse_message (packet_text (printed c)) ≡ ok (packet_of (content_words c))
unfolding parse_message
parse_message-packet_text c h =
    let end : trim (codes "\\n}") ≡ [] = unfold trim in refl in
    let cut_text : split_all (split b',' (trim (packet_text (printed c))))
        ≡ packet_words (content_words c) =
      ap (λ (t : Bytes). split_all (split b',' (trim t))) (packet_text-render c)
      ∙ split_all-render (first_field c) (later_fields c) (codes "\\n}") (first_field-IsField c)
          (later_fields-IsField c h) end
      ∙ words_lem c h in
    rw cut_text (checked-packet_words (content_words c) (content_words-IsPacket c h))
