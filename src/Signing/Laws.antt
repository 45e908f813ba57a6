-- ===== src/Signing/Laws.antt =====
-- What the handler of `/sign` answers, and which keys are accepted.
use verulink.Base.{
  bind_ok, bind_or_err, ◌≡◌, refl, inl, inr, Bool, true, false, List, Bytes, codes, some, Result,
  ok, err, panics, eqb, eqb_iff, lookup, Bool-cases, ◌&&◌,
}
use verulink.Chain.{ScreenedPacket}
use verulink.Chain.BigInt.{big_string}
use verulink.Signing.Service.{
  Signers, SignRequest, forbidden, bad_request, signed, reply_of, sign_for, serve_sign,
}

forbidden_not_signed : (h g : Bytes) → forbidden ≡ signed h g → ⊥
forbidden_not_signed h g e = cc

bad_request_not_signed : (m h g : Bytes) → bad_request m ≡ signed h g → ⊥
bad_request_not_signed m h g e = cc

reply_of_signed :
    (x : Result (Bytes × Bytes)) (h g : Bytes) → reply_of x ≡ signed h g → x ≡ ok (h, g)
reply_of_signed (ok (a, b)) h g e = cc
reply_of_signed (err x) h g e = cc
reply_of_signed panics h g e = cc

both_true : (a b : Bool) → (a && b) ≡ true → (a ≡ true) × (b ≡ true)
both_true true b e = (refl, e)
both_true false b e = cc

module _ (s : Signers) (names : List (Bytes × Bytes)) (cfg_user cfg_pass : Bytes)
    (unmarshal : Bytes → Result ScreenedPacket) where
  -- A signature is only given to a POST with the configured credentials, whose body is a packet for
  -- a chain that is configured, and it is what the signer of that chain returns.
  pub serve_sign_signed :
      (r : SignRequest) (hash signature : Bytes)
      → serve_sign s names cfg_user cfg_pass unmarshal r ≡ signed hash signature
      → (r.username ≡ cfg_user)
        × (r.password ≡ cfg_pass)
        × (r.method ≡ codes "POST")
        × (body : Bytes) × (sp : ScreenedPacket) × (name : Bytes) × (r.body ≡ ok body)
        × (unmarshal body ≡ ok sp)
        × (lookup (big_string sp.packet.destination.chain_id) names ≡ some name)
        × (sign_for s name sp ≡ ok (hash, signature))
  unfolding serve_sign
  serve_sign_signed r hash signature e =
      elim (Bool-cases (eqb r.username cfg_user && eqb r.password cfg_pass)) [
        | inr wrong ↦ absurd (forbidden_not_signed hash signature (rw wrong at e))
        | inl right ↦ elim (Bool-cases (eqb r.method (codes "POST"))) [
          | inr other ↦ absurd (bad_request_not_signed _ hash signature (rw (right, other) at e))
          | inl post ↦
              let done : _ ≡ ok (hash, signature) =
                reply_of_signed _ hash signature (rw (right, post) at e) in
              let (user, pass) = both_true _ _ right in
              let (body, read, run) = bind_ok r.body _ (hash, signature) done in
              let (sp, decoded, more) = bind_ok (unmarshal body) _ (hash, signature) run in
              let (name, found, last) =
                bind_or_err (lookup (big_string sp.packet.destination.chain_id) names) _ _
                  (hash, signature) more in
              (
                (eqb_iff r.username cfg_user).0 user,
                (eqb_iff r.password cfg_pass).0 pass,
                (eqb_iff r.method (codes "POST")).0 post,
                body,
                sp,
                name,
                read,
                decoded,
                found,
                last,
              )
        ]
      ]
