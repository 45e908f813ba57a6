-- ===== src/Tests/SigningWitnesses.antt =====
-- The theorems of the signing service at concrete inputs.
use verulink.Base.{
  ◌≡◌, ◌⊎◌, refl, true, List, [], ◌∷◌, some, Bytes, codes, eqb, lookup, arith, Result, ok,
}
use verulink.Chain.{Packet, ScreenedPacket}
use verulink.Chain.BigInt.{big_string, itoa, emit}
use verulink.Tests.Data.{pkt}
use verulink.Signing.Ethereum.{Crypto, packet_bytes, hash}
use verulink.Store.Key.BigEndian.{be, of_be, length-be}
use verulink.Signing.Collision.{Collision, IsSameVote, hash-binds}
use verulink.Signing.Preimage.{Fits, IsSameSigned, packet_bytes-injective}
use verulink.Signing.Service.{Signers, SignRequest, signed, sign_for, serve_sign, hash_and_sign}
use verulink.Signing.Laws.{serve_sign_signed}

abbrev zeros : Bytes → Bytes
zeros s = codes "00000000000000000000"

abbrev pub crypto : Crypto
crypto = record {
  PrivateKey = Bytes;
  keccak256 = λ b. b;
  hex_to_address = zeros;
  hash_hex = λ b. b;
  hex_to_hash = λ b. b;
  hex_to_ecdsa = λ b. ok b;
  wallet_of = λ k. k;
  sign = λ h k. ok h;
  bytes_to_hex = λ b. b;
  equal_fold = eqb;
}

pkt-Fits : Fits pkt
pkt-Fits = record {
  version = omega arith;
  sequence = omega arith;
  height = omega arith;
  source_chain = omega arith;
  dest_chain = omega arith;
  amount = omega arith;
}

other-Fits : Fits (record pkt { is_missed = true })
other-Fits = record {
  version = omega arith;
  sequence = omega arith;
  height = omega arith;
  source_chain = omega arith;
  dest_chain = omega arith;
  amount = omega arith;
}

-- Another packet that has the same fields in what is hashed.
abbrev other_pkt : Packet
other_pkt = record pkt { is_missed = true }

same_bytes : packet_bytes crypto pkt ≡ packet_bytes crypto other_pkt
unfolding packet_bytes
same_bytes = refl

packet_bytes-injective_example : IsSameSigned zeros pkt other_pkt
packet_bytes-injective_example =
    packet_bytes-injective crypto pkt other_pkt (λ s. refl) pkt-Fits other-Fits refl refl same_bytes

-- A digest of 32 bytes: the last of them.
abbrev last_bytes : Crypto
last_bytes = record crypto { keccak256 = λ b. be 32 (of_be b) }

abbrev vote : ScreenedPacket
vote = record { packet = pkt; is_white = true }

abbrev other_vote : ScreenedPacket
other_vote = record { packet = other_pkt; is_white = true }

same_hash : hash last_bytes vote ≡ hash last_bytes other_vote
unfolding hash packet_bytes
same_hash = refl

hash-binds_example : IsSameVote last_bytes vote other_vote ⊎ Collision last_bytes
hash-binds_example =
    hash-binds last_bytes (λ b. length-be 32 (of_be b)) (λ u v a b e. e) (λ s. refl) vote other_vote
      pkt-Fits other-Fits refl refl same_hash

abbrev by_name : Signers
by_name = record {
  aleo = λ sp. ok (codes "a", codes "s");
  ethereum = λ sp. ok (codes "e", codes "t");
}

abbrev white : ScreenedPacket
white = record { packet = pkt; is_white = true }

abbrev request : SignRequest
request = record {
  username = codes "u";
  password = codes "p";
  method = codes "POST";
  body = ok (codes "x");
}

abbrev reads : Bytes → Result ScreenedPacket
reads b = ok white

abbrev names : List (Bytes × Bytes)
names = (codes "1", codes "ethereum") ∷ []

answered :
    serve_sign by_name names (codes "u") (codes "p") reads request ≡ signed (codes "e") (codes "t")
unfolding serve_sign hash_and_sign lookup eqb big_string itoa emit
answered = refl

serve_sign_signed_example :
    (codes "u" ≡ codes "u")
    × (codes "p" ≡ codes "p")
    × (codes "POST" ≡ codes "POST")
    × (body : Bytes) × (sp : ScreenedPacket) × (name : Bytes) × (request.body ≡ ok body)
    × (reads body ≡ ok sp)
    × (lookup (big_string sp.packet.destination.chain_id) names ≡ some name)
    × (sign_for by_name name sp ≡ ok (codes "e", codes "t"))
serve_sign_signed_example =
    serve_sign_signed by_name names (codes "u") (codes "p") reads request (codes "e") (codes "t")
      answered
