-- ===== src/Signing/Preimage.antt =====
-- What the ethereum hash is taken of determines the packet: the fields have fixed widths.
use native.Mathlib.Nat.{mod-eq_of_lt}
use verulink.Base.{
  ℕ, ◌^◌, ◌<◌, ◌≡◌, refl, sym, ap, ◌∙◌, List, [], ◌∷◌, ◌++◌, Bytes, ok, length, lt→ltb, arith,
}
use verulink.Chain.{Packet}
use verulink.Chain.BigInt.{ℤ}
use verulink.Store.Key.BigEndian.{be, of_be, of_be-be, length-be}
use verulink.Signing.Ethereum.{Crypto, word_bytes, fill_bytes, magnitude, packet_bytes, concat}

heads_equal : (x y : ℕ) (a b : Bytes) → (x ∷ a) ≡ (y ∷ b) → (x ≡ y) × (a ≡ b)
heads_equal x y a b e = (cc, cc)

pub append-cancel : (a c b d : Bytes) → length a ≡ length c → a ++ b ≡ c ++ d → (a ≡ c) × (b ≡ d)
append-cancel [] [] b d l e = (refl, e)
append-cancel [] (y ∷ c) b d l e = absurd (omega arith)
append-cancel (x ∷ a) [] b d l e = absurd (omega arith)
append-cancel (x ∷ a) (y ∷ c) b d l e =
    let (head, tail) = heads_equal x y (a ++ b) (c ++ d) e in
    let (same, rest) = append-cancel a c b d (omega arith) tail in (cc, rest)

be-injective : (w u v : ℕ) → u < 256 ^ w → v < 256 ^ w → be w u ≡ be w v → u ≡ v
be-injective w u v hu hv e =
    sym (mod-eq_of_lt hu) ∙ sym (of_be-be w u) ∙ ap of_be e ∙ of_be-be w v ∙ mod-eq_of_lt hv

-- The chunks that are hashed one after the other.
abbrev pub chunks : (Bytes → Bytes) → Packet → List Bytes
chunks address p =
    be 32 p.version
    ∷ be 32 p.sequence
    ∷ be 32 (magnitude p.source.chain_id)
    ∷ p.source.address
    ∷ be 32 (magnitude p.destination.chain_id)
    ∷ address p.destination.address
    ∷ p.message.sender_address
    ∷ address p.message.dest_token_address
    ∷ be 32 (magnitude p.message.amount)
    ∷ address p.message.receiver_address
    ∷ be 32 p.height
    ∷ []

-- Chunk by chunk, the lengths or the bytes are equal.
abbrev SameLengths : List Bytes → List Bytes → Type 0
SameLengths [] [] = Unit
SameLengths (x ∷ xs) (y ∷ ys) = (length x ≡ length y) × SameLengths xs ys
SameLengths _ _ = ⊥

abbrev SameChunks : List Bytes → List Bytes → Type 0
SameChunks [] [] = Unit
SameChunks (x ∷ xs) (y ∷ ys) = (x ≡ y) × SameChunks xs ys
SameChunks _ _ = ⊥

concat-injective :
    (xs ys : List Bytes) → SameLengths xs ys → concat xs ≡ concat ys → SameChunks xs ys
concat-injective [] [] l e = tt
concat-injective [] (y ∷ ys) l e = absurd l
concat-injective (x ∷ xs) [] l e = absurd l
concat-injective (x ∷ xs) (y ∷ ys) l e =
    let (same, rest) = append-cancel x y (concat xs) (concat ys) l.0 e in
    (same, concat-injective xs ys l.1 rest)

-- The fields of the packet are such as Go's types hold, and its integers fit into 32 bytes.
pub record Fits (p : Packet) : Type 0 where
  pub version : p.version < 256 ^ 32
  pub sequence : p.sequence < 256 ^ 32
  pub height : p.height < 256 ^ 32
  pub source_chain : magnitude p.source.chain_id < 256 ^ 32
  pub dest_chain : magnitude p.destination.chain_id < 256 ^ 32
  pub amount : magnitude p.message.amount < 256 ^ 32

fill_bytes_fits : (z : ℤ) → magnitude z < 256 ^ 32 → fill_bytes z ≡ ok (be 32 (magnitude z))
unfolding fill_bytes
fill_bytes_fits z h = rw (lt→ltb (magnitude z) (256 ^ 32) h)

-- Two packets that agree in all that is hashed; of an address, its 20 bytes are.
pub record IsSameSigned (address : Bytes → Bytes) (p q : Packet) : Type 0 where
  pub version : p.version ≡ q.version
  pub sequence : p.sequence ≡ q.sequence
  pub source_chain : magnitude p.source.chain_id ≡ magnitude q.source.chain_id
  pub source_address : p.source.address ≡ q.source.address
  pub dest_chain : magnitude p.destination.chain_id ≡ magnitude q.destination.chain_id
  pub dest_address : address p.destination.address ≡ address q.destination.address
  pub sender : p.message.sender_address ≡ q.message.sender_address
  pub token : address p.message.dest_token_address ≡ address q.message.dest_token_address
  pub amount : magnitude p.message.amount ≡ magnitude q.message.amount
  pub receiver : address p.message.receiver_address ≡ address q.message.receiver_address
  pub height : p.height ≡ q.height

same_length : (u v : ℕ) → length (be 32 u) ≡ length (be 32 v)
same_length u v = length-be 32 u ∙ sym (length-be 32 v)

chunks-injective :
    (address : Bytes → Bytes) (p q : Packet)
    → ((s : Bytes) → length (address s) ≡ 20)
    → Fits p
    → Fits q
    → length p.source.address ≡ length q.source.address
    → length p.message.sender_address ≡ length q.message.sender_address
    → concat (chunks address p) ≡ concat (chunks address q)
    → IsSameSigned address p q
chunks-injective address p q twenty fp fq src snd e =
    let all_twenty : (s t : Bytes) → length (address s) ≡ length (address t) =
      λ s t. twenty s ∙ sym (twenty t) in
    let word : (u v : ℕ) → length (be 32 u) ≡ length (be 32 v) = same_length in
    let (e1, (e2, (e3, (e4, (e5, (e6, (e7, (e8, (e9, (e10, (e11, _))))))))))) =
      concat-injective (chunks address p) (chunks address q)
        (
          word _ _,
          (
            word _ _,
            (
              word _ _,
              (
                src,
                (
                  word _ _,
                  (
                    all_twenty _ _,
                    (snd, (all_twenty _ _, (word _ _, (all_twenty _ _, (word _ _, tt))))),
                  ),
                ),
              ),
            ),
          ),
        )
        e in
    record {
      version = be-injective 32 _ _ fp.version fq.version e1;
      sequence = be-injective 32 _ _ fp.sequence fq.sequence e2;
      source_chain = be-injective 32 _ _ fp.source_chain fq.source_chain e3;
      source_address = e4;
      dest_chain = be-injective 32 _ _ fp.dest_chain fq.dest_chain e5;
      dest_address = e6;
      sender = e7;
      token = e8;
      amount = be-injective 32 _ _ fp.amount fq.amount e9;
      receiver = e10;
      height = be-injective 32 _ _ fp.height fq.height e11;
    }

pub packet_bytes-Fits :
    (crypto : Crypto) (p : Packet)
    → Fits p
    → packet_bytes crypto p ≡ ok (concat (chunks crypto.hex_to_address p))
unfolding packet_bytes word_bytes
packet_bytes-Fits crypto p fits =
    rw
      (
        fill_bytes_fits p.message.amount fits.amount,
        fill_bytes_fits p.source.chain_id fits.source_chain,
        fill_bytes_fits p.destination.chain_id fits.dest_chain,
      )
      refl

ok_bytes-injective : (a b : Bytes) → ok a ≡ ok b → a ≡ b
ok_bytes-injective a b e = cc

-- If the integers of two packets fit into 32 bytes and their source and sender addresses have equal
-- lengths, the hash is taken of the same bytes only if they agree in all that is signed: integers by
-- their absolute value, the other addresses by their 20 bytes.
pub packet_bytes-injective :
    (crypto : Crypto) (p q : Packet)
    → ((s : Bytes) → length (crypto.hex_to_address s) ≡ 20)
    → Fits p
    → Fits q
    → length p.source.address ≡ length q.source.address
    → length p.message.sender_address ≡ length q.message.sender_address
    → packet_bytes crypto p ≡ packet_bytes crypto q
    → IsSameSigned crypto.hex_to_address p q
packet_bytes-injective crypto p q twenty fp fq src snd e =
    chunks-injective crypto.hex_to_address p q twenty fp fq src snd (
      ok_bytes-injective _ _
        (sym (packet_bytes-Fits crypto p fp) ∙ e ∙ packet_bytes-Fits crypto q fq))
