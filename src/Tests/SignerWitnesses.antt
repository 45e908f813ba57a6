-- ===== src/Tests/SignerWitnesses.antt =====
-- The client of the signing service and the service at a concrete network.
use mathlib.Core.Path.{subst}
use verulink.Base.{
  ◌⊎◌, ◌≢◌, inl, inr, err, ℕ, zero, suc, ◌≡◌, refl, true, List, [], ◌∷◌, ◌++◌, some, Bytes, codes,
  lookup, eqb, length, Result, ok, message, ◌>>=◌,
}
use verulink.Chain.{ScreenedPacket}
use verulink.Chain.BigInt.{big_string, itoa, emit}
use verulink.Relay.Web.{Web, unexpected_status}
use verulink.Relay.Signer.{hash_and_sign_screened_packet}
use verulink.Relay.SignerService.{
  Wire, request_of, respond, seen, ReadsStrings, SignsUtf8, hash_and_sign_screened_packet-seen,
}
use verulink.Signing.Service.{Signers, serve_sign}
use verulink.Tests.Data.{ascii, pkt, put_text, get_text, get_nat, get_text-put_text}

-- A map is written as the number of its pairs and then their texts.
abbrev put_pairs : List (Bytes × Bytes) → Bytes
put_pairs [] = []
put_pairs ((k, v) ∷ m) = put_text k (put_text v (put_pairs m))

abbrev get_pairs : ℕ → Bytes → Result (List (Bytes × Bytes))
get_pairs zero b = ok []
get_pairs (suc n) b =
    get_text b λ k r. get_text r λ v rest. (get_pairs n rest >>= λ m. ok ((k, v) ∷ m))

get_pairs-put_pairs : (m : List (Bytes × Bytes)) → get_pairs (length m) (put_pairs m) ≡ ok m
get_pairs-put_pairs [] = refl
get_pairs-put_pairs ((k, v) ∷ m) =
    rw (get_text-put_text k, get_text-put_text v, get_pairs-put_pairs m)

abbrev wire : Wire
wire = record {
  credentials = λ url. (codes "u", codes "p");
  marshal_strings = λ m. length m ∷ put_pairs m;
  error_text = λ e. [];
  closed = message (codes "EOF");
  valid_utf8 = ascii;
}

-- What is signed is plain text.
abbrev IsAscii : Result (Bytes × Bytes) → Type 0
IsAscii (ok (hash, signature)) = (ascii hash ≡ true) × (ascii signature ≡ true)
IsAscii _ = Unit

abbrev by_name : Signers
by_name = record {
  aleo = λ sp. ok (codes "a", codes "s");
  ethereum = λ sp. ok (codes "e", codes "t");
}

abbrev names : List (Bytes × Bytes)
names = (codes "1", codes "ethereum") ∷ []

abbrev vote : ScreenedPacket
vote = record { packet = pkt; is_white = true }

abbrev marshal : ScreenedPacket → Result Bytes
marshal sp = ok (codes "x")

abbrev unmarshal : Bytes → Result ScreenedPacket
unmarshal b = ok vote

abbrev web : Web
web = record {
  send = λ r.
      respond wire (serve_sign by_name names (codes "u") (codes "p") unmarshal (request_of wire r));
  build_url = λ s u h p. h ++ p;
  parse_url = λ u. ok u;
  join_path = λ u p. u ++ p;
  encode_query = λ q. [];
  with_query = λ u q. u ++ q;
  marshal_object = λ o. ok [];
  unmarshal_strings = λ b. get_nat b get_pairs;
}

configured : lookup (big_string vote.packet.destination.chain_id) names ≡ some (codes "ethereum")
unfolding lookup eqb big_string itoa emit
configured = refl

reads : ReadsStrings wire web by_name names (codes "u") (codes "p") unmarshal
reads m valid = (m, get_pairs-put_pairs m, λ k. refl)

signs : SignsUtf8 wire web by_name names (codes "u") (codes "p") unmarshal
signs sp hash signature (inl e) = (subst (λ (r : Result (Bytes × Bytes)). IsAscii r) e (refl, refl))
signs sp hash signature (inr e) = (subst (λ (r : Result (Bytes × Bytes)). IsAscii r) e (refl, refl))

hash_and_sign_screened_packet-seen_example :
    ((codes "ethereum" ≡ codes "aleo")
      × (hash_and_sign_screened_packet web (codes "url") marshal vote
          ≡ seen wire (by_name.aleo vote)))
    ⊎ (((codes "ethereum" ≡ codes "ethereum")
          × (hash_and_sign_screened_packet web (codes "url") marshal vote
              ≡ seen wire (by_name.ethereum vote)))
        ⊎ ((codes "ethereum" ≢ codes "aleo")
            × (codes "ethereum" ≢ codes "ethereum")
            × (hash_and_sign_screened_packet web (codes "url") marshal vote
                ≡ err unexpected_status)))
hash_and_sign_screened_packet-seen_example =
    hash_and_sign_screened_packet-seen wire web by_name names (codes "u") (codes "p") unmarshal
      (codes "url") marshal vote vote (codes "x") (codes "ethereum") refl refl refl configured
      (refl, refl) (λ r. refl) reads signs
