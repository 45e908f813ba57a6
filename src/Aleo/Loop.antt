-- ===== src/Aleo/Loop.antt =====
-- The loop of `parseMessage` (attestor/chainService/chain/aleo/utils.go) over the words of a packet.
use verulink.Base.{
  ℕ, suc, ◌+◌, ◌<◌, ◌≡◌, refl, ap, ◌∙◌, Bool, true, false, ◌&&◌, ◌||◌, List, [], ◌∷◌, ◌++◌, map,
  Bytes, codes, eqb, Result, ok, arith, All, length, take, join, leb, ◌==◌, ltb,
}
use verulink.Chain.BigInt.{itoa}
use verulink.Aleo.Fields.{
  AleoPacket, fields, for_each, source_field, destination_field, message_field, slice,
}
use verulink.Aleo.Digits.{all_digits, nonempty, itoa-IsPlain}
use verulink.Aleo.Address.{word}

-- A word that is none of the names that the loop looks for.
pub record IsQuiet (w : Bytes) : Type 0 where
  pub version : eqb w (codes "version") ≡ false
  pub sequence : eqb w (codes "sequence") ≡ false
  pub source : eqb w (codes "source") ≡ false
  pub destination : eqb w (codes "destination") ≡ false
  pub message : eqb w (codes "message") ≡ false
  pub height : eqb w (codes "height") ≡ false
  pub chain_id : eqb w (codes "chain_id") ≡ false
  pub addr : eqb w (codes "addr") ≡ false
  pub token : eqb w (codes "dest_token_address") ≡ false
  pub sender : eqb w (codes "sender_address") ≡ false
  pub receiver : eqb w (codes "receiver_address") ≡ false
  pub amount : eqb w (codes "amount") ≡ false

-- No name begins with a sign or a digit.
abbrev pub is_numeric : Bytes → Bool
is_numeric [] = false
is_numeric (c ∷ s) = c == b'-' || leb b'0' c && leb c b'9'

pub numeric-IsQuiet : (w : Bytes) → is_numeric w ≡ true → IsQuiet w
unfolding eqb
numeric-IsQuiet [] h = cc
numeric-IsQuiet (c ∷ s) h =
    let v : (c == b'v') ≡ false = ground arith in
    let s' : (c == b's') ≡ false = ground arith in
    let d : (c == b'd') ≡ false = ground arith in
    let m : (c == b'm') ≡ false = ground arith in
    let h' : (c == b'h') ≡ false = ground arith in
    let c' : (c == b'c') ≡ false = ground arith in
    let a : (c == b'a') ≡ false = ground arith in
    let r : (c == b'r') ≡ false = ground arith in
    record {
      version = rw v;
      sequence = rw s';
      source = rw s';
      destination = rw d;
      message = rw m;
      height = rw h';
      chain_id = rw c';
      addr = rw a;
      token = rw d;
      sender = rw s';
      receiver = rw r;
      amount = rw a;
    }

is_numeric-digits :
    (w rest : Bytes) → all_digits w ≡ true → nonempty w ≡ true → is_numeric (w ++ rest) ≡ true
is_numeric-digits [] rest h n = cc
is_numeric-digits (c ∷ w) rest h n = ground arith

-- An unsigned number with a suffix.
pub digits-IsQuiet :
    (w rest : Bytes) → all_digits w ≡ true → nonempty w ≡ true → IsQuiet (w ++ rest)
digits-IsQuiet w rest h n = numeric-IsQuiet (w ++ rest) (is_numeric-digits w rest h n)

pub words-IsQuiet : (bs : Bytes) → All (λ (n : ℕ). n < 256) bs → All IsQuiet (map word bs)
words-IsQuiet [] h = tt
words-IsQuiet (b ∷ bs) h = (
  digits-IsQuiet (itoa b) (codes "u8") (itoa-IsPlain b h.0).digits (itoa-IsPlain b h.0).some_digit,
  words-IsQuiet bs h.1,
)

pub fields_quiet :
    (w : Bytes) (rest : List Bytes) (p : AleoPacket)
    → IsQuiet w
    → fields (w ∷ rest) p ≡ fields rest p
unfolding fields
fields_quiet w rest p q = rw (q.version, q.sequence, q.source, q.destination, q.message, q.height)

pub fields_all_quiet :
    (ws rest : List Bytes) (p : AleoPacket) → All IsQuiet ws → fields (ws ++ rest) p ≡ fields rest p
fields_all_quiet [] rest p q = refl
fields_all_quiet (w ∷ ws) rest p q =
    fields_quiet w (ws ++ rest) p q.0 ∙ fields_all_quiet ws rest p q.1

take-length : (ws rest : List Bytes) → take (length ws) (ws ++ rest) ≡ ws
take-length [] rest = refl
take-length (w ∷ ws) rest = ap (λ (l : List Bytes). w ∷ l) (take-length ws rest)

long_enough : (ws rest : List Bytes) → ltb (length (ws ++ rest)) (length ws) ≡ false
long_enough [] rest = ground arith
long_enough (w ∷ ws) rest = ground (arith, long_enough ws rest)

-- A slice over an array of 32 words is that array.
slice-array : (ws rest : List Bytes) → length ws ≡ 32 → slice 32 (ws ++ rest) ≡ ok ws
slice-array ws rest l = rw (← l) (rw (long_enough ws rest, take-length ws rest))

-- The words of an array in the middle of a loop change nothing.
for_each_skip :
    (body : ℕ → List Bytes → Bytes → AleoPacket → Result AleoPacket) (ws rest : List Bytes)
    (m n : ℕ) (p : AleoPacket)
    → All IsQuiet ws
    → ((k : ℕ) (l : List Bytes) (w : Bytes) → IsQuiet w → body k l w p ≡ ok p)
    → m ≡ length ws + n
    → for_each body m (ws ++ rest) p ≡ for_each body n rest p
for_each_skip body [] rest m n p q b e = let same : m ≡ n = omega arith in rw same
for_each_skip body (w ∷ ws) rest m n p q b e =
    let one : m ≡ suc (length ws + n) = omega arith in
    rw one (
      rw (b (length ws + n) (ws ++ rest) w q.0)
        (for_each_skip body ws rest (length ws + n) n p q.1 b refl))

source_field_quiet :
    (k : ℕ) (l : List Bytes) (w : Bytes) (p : AleoPacket) → IsQuiet w → source_field k l w p ≡ ok p
source_field_quiet k l w p q = rw (q.chain_id, q.addr)

destination_field_quiet :
    (k : ℕ) (l : List Bytes) (w : Bytes) (p : AleoPacket)
    → IsQuiet w
    → destination_field k l w p ≡ ok p
destination_field_quiet k l w p q = rw (q.chain_id, q.addr)

message_field_quiet :
    (k : ℕ) (l : List Bytes) (w : Bytes) (p : AleoPacket) → IsQuiet w → message_field k l w p ≡ ok p
message_field_quiet k l w p q = rw (q.token, q.sender, q.receiver, q.amount)

pub source_lem :
    (chain_id address : Bytes) (rest : List Bytes) (p : AleoPacket)
    → IsQuiet chain_id
    → IsQuiet address
    → for_each source_field 4 (codes "chain_id" ∷ chain_id ∷ codes "addr" ∷ address ∷ rest) p
      ≡ ok (record p { source = record { chain_id = chain_id; address = address } })
unfolding eqb
source_lem chain_id address rest p c a = rw (c.chain_id, c.addr, a.chain_id, a.addr)

pub destination_lem :
    (chain_id : Bytes) (ws rest : List Bytes) (p : AleoPacket)
    → IsQuiet chain_id
    → All IsQuiet ws
    → length ws ≡ 32
    → for_each destination_field 35 (codes "chain_id" ∷ chain_id ∷ codes "addr" ∷ (ws ++ rest)) p
      ≡ ok (record p { destination = record { chain_id = chain_id; address = join b' ' ws } })
unfolding eqb
destination_lem chain_id ws rest p c q l =
    rw (c.chain_id, c.addr, slice-array ws rest l)
      (for_each_skip destination_field ws rest 32 0
        (record p { destination = record { chain_id = chain_id; address = join b' ' ws } }) q
        (λ k m w. destination_field_quiet k m w _) (omega arith))

module _ (sender amount : Bytes) (ts rs rest : List Bytes) (s : IsQuiet sender) (a : IsQuiet amount)
    (qt : All IsQuiet ts) (qr : All IsQuiet rs) (lt : length ts ≡ 32) (lr : length rs ≡ 32) where
  abbrev from_amount : List Bytes
  from_amount = codes "amount" ∷ amount ∷ codes "receiver_address" ∷ (rs ++ rest)

  amount_lem :
      (p : AleoPacket)
      → for_each message_field 35 from_amount p
        ≡ ok (record p { message = record p.message { amount = amount; receiver = join b' ' rs } })
  unfolding eqb
  amount_lem p =
      rw (a.token, a.sender, a.receiver, a.amount, slice-array rs rest lr)
        (for_each_skip message_field rs rest 32 0
          (record p { message = record p.message { amount = amount; receiver = join b' ' rs } }) qr
          (λ k m w. message_field_quiet k m w _) (omega arith))

  pub message_lem :
      (p : AleoPacket)
      → for_each message_field 70
          (codes "sender_address" ∷ sender ∷ codes "dest_token_address" ∷ (ts ++ from_amount))
          p
        ≡ ok (record p {
          message = record {
            token = join b' ' ts;
            receiver = join b' ' rs;
            amount = amount;
            sender = sender;
          };
        })
  unfolding eqb
  message_lem p =
      let q : AleoPacket = record p {
        message = record p.message { sender = sender; token = join b' ' ts };
      } in
      rw (s.token, s.sender, s.receiver, s.amount, slice-array ts from_amount lt)
        (for_each_skip message_field ts from_amount 67 35 q qt
            (λ k m w. message_field_quiet k m w _) (omega arith)
          ∙ amount_lem q)
