-- ===== src/Tests/Data.antt =====
-- The packets, stores and services at which the theorems are applied.
use mathlib.Core.Path.{subst}
use verulink.Base.{
  Bool, true, ltb, ◌&&◌, ok-injective, ℕ, zero, suc, ◌≡◌, refl, ap, false, List, [], ◌∷◌, ◌++◌,
  Bytes, codes, length, take, drop, Result, ok, err, panics, message,
}
use verulink.Chain.{Packet, set_missed}
use verulink.Chain.BigInt.{ℤ, pos, negsuc}
use verulink.Store.Json.{Codec}
use verulink.Relay.Digest.{Digest}
use verulink.Relay.Process.{Services}

abbrev pub pkt : Packet
pkt = record {
  version = 1;
  source = record { chain_id = pos 2; address = codes "a" };
  destination = record { chain_id = pos 1; address = codes "b" };
  sequence = 3;
  message = record {
    dest_token_address = codes "t";
    sender_address = codes "s";
    amount = pos 7;
    receiver_address = codes "r";
  };
  height = 30;
  is_missed = false;
}

-- A text is its length and its bytes, an integer its sign and its absolute value.
abbrev pub put_text : Bytes → Bytes → Bytes
put_text s rest = length s ∷ (s ++ rest)

abbrev put_int : ℤ → Bytes → Bytes
put_int (pos n) rest = 0 ∷ n ∷ rest
put_int (negsuc n) rest = 1 ∷ n ∷ rest

abbrev pub get_text {ℓ} : {A : Type ℓ} → Bytes → (Bytes → Bytes → Result A) → Result A
get_text [] k = panics
get_text (n ∷ s) k = k (take n s) (drop n s)

abbrev get_int {ℓ} : {A : Type ℓ} → Bytes → (ℤ → Bytes → Result A) → Result A
get_int (zero ∷ n ∷ s) k = k (pos n) s
get_int (suc m ∷ n ∷ s) k = k (negsuc n) s
get_int _ k = panics

abbrev pub get_nat {ℓ} : {A : Type ℓ} → Bytes → (ℕ → Bytes → Result A) → Result A
get_nat [] k = panics
get_nat (n ∷ s) k = k n s

abbrev pub encode_packet : Packet → Bytes
encode_packet p =
    p.version
    ∷ put_int p.source.chain_id (
        put_text p.source.address (
          put_int p.destination.chain_id (
            put_text p.destination.address (
              p.sequence
              ∷ put_text p.message.dest_token_address (
                  put_text p.message.sender_address (
                    put_int p.message.amount
                      (put_text p.message.receiver_address (p.height ∷ []))))))))

abbrev pub decode_packet : Bytes → Result Packet
decode_packet b = get_nat b λ version r1. get_int r1 λ source_id r2.
    get_text r2 λ source_address r3. get_int r3 λ dest_id r4. get_text r4 λ dest_address r5.
      get_nat r5 λ sequence r6. get_text r6 λ token r7. get_text r7 λ sender r8.
        get_int r8 λ amount r9. get_text r9 λ receiver r10. get_nat r10 λ height r11. ok (record {
          version = version;
          source = record { chain_id = source_id; address = source_address };
          destination = record { chain_id = dest_id; address = dest_address };
          sequence = sequence;
          message = record {
            dest_token_address = token;
            sender_address = sender;
            amount = amount;
            receiver_address = receiver;
          };
          height = height;
          is_missed = false;
        })

take-length : (s r : Bytes) → take (length s) (s ++ r) ≡ s
take-length [] r = refl
take-length (x ∷ s) r = ap (λ t. x ∷ t) (take-length s r)

drop-length : (s r : Bytes) → drop (length s) (s ++ r) ≡ r
drop-length [] r = refl
drop-length (x ∷ s) r = drop-length s r

pub get_text-put_text {ℓ} :
    {A : Type ℓ} (s r : Bytes) (k : Bytes → Bytes → Result A) → get_text (put_text s r) k ≡ k s r
get_text-put_text s r k = rw (take-length s r, drop-length s r)

get_int-put_int {ℓ} :
    {A : Type ℓ} (z : ℤ) (r : Bytes) (k : ℤ → Bytes → Result A) → get_int (put_int z r) k ≡ k z r
get_int-put_int (pos n) r k = refl
get_int-put_int (negsuc n) r k = refl

pub decode_packet-encode_packet :
    (p : Packet) → decode_packet (encode_packet p) ≡ ok (set_missed p false)
unfolding set_missed
decode_packet-encode_packet p = rw (
  get_int-put_int p.source.chain_id,
  get_text-put_text p.source.address,
  get_int-put_int p.destination.chain_id,
  get_text-put_text p.destination.address,
  get_text-put_text p.message.dest_token_address,
  get_text-put_text p.message.sender_address,
  get_int-put_int p.message.amount,
  get_text-put_text p.message.receiver_address,
)

pub unmarshal_lem :
    (p : Packet) (b : Bytes)
    → ok (encode_packet p) ≡ ok b
    → decode_packet b ≡ ok (set_missed p false)
unmarshal_lem p b e =
    subst (λ (s : Bytes). decode_packet s ≡ ok (set_missed p false)) (ok-injective e)
      (decode_packet-encode_packet p)

abbrev pub ascii : Bytes → Bool
ascii [] = true
ascii (c ∷ s) = ltb c 128 && ascii s

abbrev pub codec : Codec
codec = record {
  marshal = λ p. ok (encode_packet p);
  unmarshal = decode_packet;
  valid_utf8 = ascii;
  unmarshal-marshal = λ p b valid e. unmarshal_lem p b e;
}

abbrev zeros : ℕ → Bytes
zeros zero = []
zeros (suc n) = b'0' ∷ zeros n

abbrev pub digest : Digest
digest = record { sha256_hex = λ s. zeros 64; length-sha256_hex = λ s. refl }

-- The collector does not answer, or takes what it is sent.
abbrev pub failing : Services
failing = record {
  hash_and_sign_screened_packet = λ sp. ok (codes "h", codes "s");
  send_to_collector = λ sp h s. err (message (codes "no answer"));
}

abbrev pub working : Services
working = record {
  hash_and_sign_screened_packet = λ sp. ok (codes "h", codes "s");
  send_to_collector = λ sp h s. ok tt;
}

abbrev pub chains : List (Bytes × Bytes)
chains = (codes "2", codes "aleo") ∷ (codes "1", codes "ethereum") ∷ []
