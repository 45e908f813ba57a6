-- ===== src/Signing/Collision.antt =====
-- attestor/signingService/chain/ethereum: the hash that is signed binds the packet and the vote.
use verulink.Base.{
  ◌≡◌, ◌≢◌, ◌⊎◌, inl, inr, refl, sym, ap, ◌∙◌, Bool, true, false, [], ◌∷◌, ◌++◌, Bytes, codes, ok,
  length, append-nil, eqb, eqb_iff, Bool-cases, ok-injective, arith,
}
use verulink.Chain.{ScreenedPacket}
use verulink.Signing.Ethereum.{Crypto, packet_bytes, hash, get_eth_bool_byte, concat}
use verulink.Signing.Preimage.{
  Fits, IsSameSigned, append-cancel, chunks, packet_bytes-Fits, packet_bytes-injective,
}

-- Two byte strings that keccak does not tell apart.
abbrev pub Collision : Crypto → Type 0
Collision crypto = (a : Bytes) × (b : Bytes) × (a ≢ b) × (crypto.keccak256 a ≡ crypto.keccak256 b)

-- The packet and the vote of two screened packets agree in all that is signed.
abbrev pub IsSameVote : Crypto → ScreenedPacket → ScreenedPacket → Type 0
IsSameVote crypto s t =
    IsSameSigned crypto.hex_to_address s.packet t.packet × (s.is_white ≡ t.is_white)

abbrev ethereum_header : Bytes
ethereum_header = 25 ∷ codes "Ethereum Signed Message:" ++ 10 ∷ codes "32"

get_eth_bool_byte-injective : (a b : Bool) → get_eth_bool_byte a ≡ get_eth_bool_byte b → a ≡ b
unfolding get_eth_bool_byte
get_eth_bool_byte-injective true true e = refl
get_eth_bool_byte-injective true false e = ground arith
get_eth_bool_byte-injective false true e = ground arith
get_eth_bool_byte-injective false false e = refl

-- The hash of a screened packet from the bytes of its packet.
module _ (crypto : Crypto) where
  open crypto use {keccak256, hash_hex}

  abbrev vote_text : Bytes → Bool → Bytes
  vote_text preimage white = concat (keccak256 preimage ∷ get_eth_bool_byte white ∷ [])

  abbrev final_text : Bytes → Bytes
  final_text vote = concat (ethereum_header ∷ vote ∷ [])

  abbrev preimage_of : ScreenedPacket → Bytes
  preimage_of s = concat (chunks crypto.hex_to_address s.packet)

  hash-Fits :
      (s : ScreenedPacket)
      → Fits s.packet
      → hash crypto s
        ≡ ok (hash_hex (keccak256 (final_text (keccak256 (vote_text (preimage_of s) s.is_white)))))
  unfolding hash
  hash-Fits s fits = rw (packet_bytes-Fits crypto s.packet fits) refl

  keccak_cases : (a b : Bytes) → keccak256 a ≡ keccak256 b → (a ≡ b) ⊎ Collision crypto
  keccak_cases a b e = elim (Bool-cases (eqb a b)) [
    | inl same ↦ inl ((eqb_iff a b).0 same)
    | inr other ↦ inr (a, b, λ q. let same : eqb a b ≡ true = (eqb_iff a b).1 q in cc, e)
  ]

  -- Each of the three steps is undone, or is a collision.
  module _ (wide : (b : Bytes) → length (keccak256 b) ≡ 32) where
    final_text-injective : (u v : Bytes) → final_text u ≡ final_text v → u ≡ v
    final_text-injective u v e =
        let (_, rest) = append-cancel ethereum_header ethereum_header (u ++ []) (v ++ []) refl e in
        sym (append-nil u) ∙ rest ∙ append-nil v

    vote_text-injective :
        (u v : Bytes) (a b : Bool)
        → vote_text u a ≡ vote_text v b
        → (keccak256 u ≡ keccak256 v) × (a ≡ b)
    vote_text-injective u v a b e =
        let (first, rest) =
          append-cancel (keccak256 u) (keccak256 v) _ _ (wide u ∙ sym (wide v)) e in
        (first, get_eth_bool_byte-injective a b (sym (append-nil _) ∙ rest ∙ append-nil _))

    -- If keccak gives 32 bytes, of which the text of a hash loses none, and addresses are 20
    -- bytes; the integers of both packets fit into 32 bytes and their source and sender addresses
    -- have equal lengths: equal hashes mean equal votes on packets that agree in all that is
    -- signed, or a collision of keccak.
    pub hash-binds :
        ((u v : Bytes) → length u ≡ 32 → length v ≡ 32 → hash_hex u ≡ hash_hex v → u ≡ v)
        → ((s : Bytes) → length (crypto.hex_to_address s) ≡ 20)
        → (s t : ScreenedPacket) → Fits s.packet
        → Fits t.packet
        → length s.packet.source.address ≡ length t.packet.source.address
        → length s.packet.message.sender_address ≡ length t.packet.message.sender_address
        → hash crypto s ≡ hash crypto t
        → IsSameVote crypto s t ⊎ Collision crypto
    hash-binds hex twenty s t fs ft src snd e =
        let texts =
          hex _ _ (wide _) (wide _) (ok-injective (sym (hash-Fits s fs) ∙ e ∙ hash-Fits t ft)) in
        elim (keccak_cases _ _ texts) [
          | inr broken ↦ inr broken
          | inl finals ↦ elim (keccak_cases _ _ (final_text-injective _ _ finals)) [
            | inr broken ↦ inr broken
            | inl votes ↦
                let (pre, white) = vote_text-injective _ _ s.is_white t.is_white votes in
                elim (keccak_cases _ _ pre) [
                  | inr broken ↦ inr broken
                  | inl same ↦
                      let bytes : packet_bytes crypto s.packet ≡ packet_bytes crypto t.packet =
                        packet_bytes-Fits crypto s.packet fs
                        ∙ ap ok same
                        ∙ sym (packet_bytes-Fits crypto t.packet ft) in
                      inl (
                        packet_bytes-injective crypto s.packet t.packet twenty fs ft src snd bytes,
                        white,
                      )
                ]
          ]
        ]
