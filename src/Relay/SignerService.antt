-- ===== src/Relay/SignerService.antt =====
-- The client of attestor/chainService/relay/signer/sign.go against the handler of
-- attestor/signingService/serve.go: what the relay is given is what the signer returns.
use verulink.Base.{
  All, Bool, true, Bool-cases, eqb_iff, sym, ap, ◌∙◌, ◌⊎◌, ◌≢◌, message, ℕ, ◌≡◌, refl, inl, inr,
  List, [], ◌∷◌, Bytes, codes, some, Result, ok, err, panics, Error, eqb, eqb_refl, lookup,
  Result-cases, ◌>>=◌,
}
use verulink.Chain.{ScreenedPacket}
use verulink.Chain.BigInt.{big_string}
use verulink.Relay.Web.{Web, Request, Response, unexpected_status}
use verulink.Relay.Signer.{hash_and_sign_screened_packet, signed_fields, post}
use verulink.Signing.Service.{
  Signers, SignRequest, Reply, forbidden, bad_request, failed, signed, dropped, reply_of, sign_for,
  serve_sign, hash_and_sign,
}

-- What `net/http` and `encoding/json` add between the two: the credentials of a URL, as
-- `BasicAuth` reads them; the text of a map; the text of an error; and what `client.Do` returns
-- where the connection is closed without an answer. Strings that are not valid UTF-8 are not written
-- as they are, which `utf8.ValidString` tells.
pub record Wire : Type 0 where
  pub credentials : Bytes → Bytes × Bytes
  pub marshal_strings : List (Bytes × Bytes) → Bytes
  pub error_text : Error → Bytes
  pub closed : Error
  pub valid_utf8 : Bytes → Bool

abbrev response : ℕ → Bytes → Result Response
response status text = ok (record { status_code = status; body = ok text })

module _ (wire : Wire) where
  open wire use {credentials, marshal_strings, error_text, closed, valid_utf8}

  abbrev pub HasUtf8 : Bytes × Bytes → Type 0
  HasUtf8 kv = (valid_utf8 kv.0 ≡ true) × (valid_utf8 kv.1 ≡ true)

  -- The request as the handler reads it.
  unfoldable pub request_of : Request → SignRequest
  request_of r = record {
    username = (credentials r.url).0;
    password = (credentials r.url).1;
    method = r.method;
    body = ok r.body;
  }

  -- The statuses and bodies that the handler of `/sign` writes.
  unfoldable pub respond : Reply → Result Response
  respond forbidden = response 403 []
  respond (bad_request text) = response 400 text
  respond (failed e) = response 400 (error_text e)
  respond (signed hash signature) =
      response 200 (marshal_strings ((codes "signature", signature) ∷ (codes "hash", hash) ∷ []))
  respond dropped = err closed

  -- What the relay sees of the outcome of signing.
  abbrev pub seen : Result (Bytes × Bytes) → Result (Bytes × Bytes)
  seen (ok pair) = ok pair
  seen (err e) = err unexpected_status
  seen panics = err closed

  module _ (web : Web) (s : Signers) (names : List (Bytes × Bytes)) (user pass : Bytes)
      (unmarshal : Bytes → Result ScreenedPacket) where
    -- The client's requests are answered by the handler.
    abbrev pub IsServed : Type 0
    IsServed =
        (r : Request) → web.send r ≡ respond (serve_sign s names user pass unmarshal (request_of r))

    -- The text of a map of valid strings is read as a map with the same values.
    abbrev pub ReadsStrings : Type 0
    ReadsStrings =
        (m : List (Bytes × Bytes))
        → All HasUtf8 m
        → (u : List (Bytes × Bytes)) × (web.unmarshal_strings (marshal_strings m) ≡ ok u)
          × ((k : Bytes) → lookup k u ≡ lookup k m)

    -- The hashes and signatures that the two signers return are valid strings.
    abbrev pub SignsUtf8 : Type 0
    SignsUtf8 =
        (sp : ScreenedPacket) (hash signature : Bytes)
        → (s.aleo sp ≡ ok (hash, signature)) ⊎ (s.ethereum sp ≡ ok (hash, signature))
        → (valid_utf8 hash ≡ true) × (valid_utf8 signature ≡ true)

    module _ (url : Bytes) (marshal : ScreenedPacket → Result Bytes) (sp read : ScreenedPacket)
        (text name : Bytes) (known : credentials url ≡ (user, pass))
        (encoded : marshal sp ≡ ok text) (decoded : unmarshal text ≡ ok read)
        (found : lookup (big_string read.packet.destination.chain_id) names ≡ some name)
        (plain : (valid_utf8 (codes "hash") ≡ true) × (valid_utf8 (codes "signature") ≡ true)) where
      handler_signs :
          serve_sign s names user pass unmarshal
            (request_of (record { method = post; url = url; body = text }))
          ≡ reply_of (sign_for s name read)
      unfolding serve_sign hash_and_sign request_of
      handler_signs = rw (known, eqb_refl user, eqb_refl pass, eqb_refl post, decoded, ◌>>=◌, found)

      client_sees :
          IsServed
          → ReadsStrings
          → ((hash signature : Bytes)
              → sign_for s name read ≡ ok (hash, signature)
              → (valid_utf8 hash ≡ true) × (valid_utf8 signature ≡ true))
          → hash_and_sign_screened_packet web url marshal sp ≡ seen (sign_for s name read)
      unfolding hash_and_sign_screened_packet respond signed_fields lookup eqb
      client_sees served reads valid = elim (Result-cases (sign_for s name read)) [
        | inl ((hash, signature), done) ↦
            let (good_hash, good_signature) = valid hash signature done in
            let (u, back, same) =
              reads ((codes "signature", signature) ∷ (codes "hash", hash) ∷ [])
                ((plain.1, good_signature), ((plain.0, good_hash), tt)) in
            rw (hash_and_sign_screened_packet, encoded, served, handler_signs, done, back)
              (rw (signed_fields, same (codes "signature"), same (codes "hash")) refl)
        | inr (inl (e, bad)) ↦
            rw (hash_and_sign_screened_packet, encoded, served, handler_signs, bad) refl
        | inr (inr bad) ↦
            rw (hash_and_sign_screened_packet, encoded, served, handler_signs, bad) refl
      ]

      -- If the handler answers the client's requests, whose credentials are the configured ones,
      -- the packet's text is read as a packet for a configured chain, a map of strings of valid
      -- UTF-8 is read back with its values, and the names of the two fields and what the signers
      -- return are such strings: for a chain named aleo the client returns the hash and the
      -- signature that the aleo signer returns, and for one named ethereum those of the ethereum
      -- signer, or an error where that fails or panics; for another name it returns an error.
      pub hash_and_sign_screened_packet-seen :
          IsServed
          → ReadsStrings
          → SignsUtf8
          → ((name ≡ codes "aleo")
              × (hash_and_sign_screened_packet web url marshal sp ≡ seen (s.aleo read)))
            ⊎ (((name ≡ codes "ethereum")
                  × (hash_and_sign_screened_packet web url marshal sp ≡ seen (s.ethereum read)))
                ⊎ ((name ≢ codes "aleo")
                    × (name ≢ codes "ethereum")
                    × (hash_and_sign_screened_packet web url marshal sp ≡ err unexpected_status)))
      hash_and_sign_screened_packet-seen served reads valid =
          elim (Bool-cases (eqb name (codes "aleo"))) [
            | inl aleo ↦
                let by : sign_for s name read ≡ s.aleo read = rw aleo refl in
                inl (
                  (eqb_iff name (codes "aleo")).0 aleo,
                  client_sees served reads (λ h g e. valid read h g (inl (sym by ∙ e)))
                      ∙ ap seen by,
                )
            | inr not_aleo ↦ elim (Bool-cases (eqb name (codes "ethereum"))) [
              | inl ethereum ↦
                  let by : sign_for s name read ≡ s.ethereum read = rw (not_aleo, ethereum) refl in
                  inr (
                    inl (
                      (eqb_iff name (codes "ethereum")).0 ethereum,
                      client_sees served reads (λ h g e. valid read h g (inr (sym by ∙ e)))
                          ∙ ap seen by,
                    ))
              | inr other ↦
                  let by : sign_for s name read ≡ err (message (codes "chain is not supported")) =
                    rw (not_aleo, other) refl in
                  inr (
                    inr (
                      (λ e. let yes = (eqb_iff name (codes "aleo")).1 e in cc),
                      (λ e. let yes = (eqb_iff name (codes "ethereum")).1 e in cc),
                      client_sees served reads (λ h g e.
                            let no : err (message (codes "chain is not supported")) ≡ ok (h, g) =
                              sym by ∙ e in
                            absurd (cc))
                          ∙ ap seen by,
                    ))
            ]
          ]
