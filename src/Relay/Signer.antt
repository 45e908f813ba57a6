-- ===== src/Relay/Signer.antt =====
-- attestor/chainService/relay/signer/sign.go: the client of the signing service.
use verulink.Base.{
  ℕ, ◌||◌, Bytes, codes, Result, ok, err, message, or_err, ltb, lookup, if◌then◌else◌, ◌>>=◌, none,
  some, List, [], ◌++◌,
}
use verulink.Chain.{ScreenedPacket}
use verulink.Chain.BigInt.{itoa}
use verulink.Relay.Web.{Web, expect_status, status_ok, unexpected_status}

pub record SigningServiceConfig : Type 0 where
  pub host : Bytes
  pub port : ℕ
  pub endpoint : Bytes
  pub scheme : Bytes
  pub username : Bytes
  pub password : Bytes
  pub health_endpoint : Bytes

abbrev pub post : Bytes
post = codes "POST"

abbrev pub method_get : Bytes
method_get = codes "GET"

-- Where both fields are missing the error names the second.
unfoldable pub signed_fields : List (Bytes × Bytes) → Result (Bytes × Bytes)
signed_fields m = elim (lookup (codes "signature") m) [
  | none ↦ err (message (codes "missing signature field"))
  | some signature ↦ (do
    hash ← or_err (lookup (codes "hash") m) (message (codes "missing hash field"))
    ok (hash, signature))
]

module _ (web : Web) where
  open web use {send, build_url, unmarshal_strings}

  -- The screened packet is sent as the JSON text that the second argument makes.
  unfoldable pub hash_and_sign_screened_packet :
      Bytes → (ScreenedPacket → Result Bytes) → ScreenedPacket → Result (Bytes × Bytes)
  unfolding signed_fields
  hash_and_sign_screened_packet url marshal sp = do
    text ← marshal sp
    resp ← send (record { method = post; url = url; body = text })
    accepted ← expect_status status_ok resp
    body ← accepted.body
    m ← unmarshal_strings body
    signed_fields m

  unfoldable pub host_port : SigningServiceConfig → Bytes
  host_port cfg = cfg.host ++ (codes ":" ++ itoa cfg.port)

  unfoldable pub check_signing_service_health : SigningServiceConfig → Result (Unit {0})
  unfolding host_port
  check_signing_service_health cfg = do
    resp ← send (record {
      method = method_get;
      url = build_url cfg.scheme none (host_port cfg) cfg.health_endpoint;
      body = [];
    })
    accepted ← expect_status status_ok resp
    ok tt

  -- Without a body the service answers with a status from 400 to 499.
  unfoldable pub dial : Bytes → Result (Unit {0})
  dial u = do
    resp ← send (record { method = post; url = u; body = [] })
    if ltb resp.status_code 400 || ltb 499 resp.status_code then err unexpected_status else ok tt

  -- The url of the service, once it has answered.
  unfoldable pub setup_signer : SigningServiceConfig → Result Bytes
  unfolding dial host_port
  setup_signer cfg =
      let u =
        build_url cfg.scheme (some (cfg.username, cfg.password)) (host_port cfg) cfg.endpoint in
      (do reached ← dial u; ok u)
