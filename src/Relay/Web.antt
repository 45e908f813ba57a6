-- ===== src/Relay/Web.antt =====
-- HTTP and URLs as the relay uses them: Go's `net/http` and `net/url`, and the services behind
-- them, are parameters.
use verulink.Base.{
  ℕ, Bool, List, Bytes, codes, Result, ok, err, Error, message, if◌then◌else◌, ◌==◌, Option,
}

pub record Request : Type 0 where
  pub method : Bytes
  pub url : Bytes
  pub body : Bytes

-- `body` is what `io.ReadAll` makes of the response's body.
pub record Response : Type 0 where
  pub status_code : ℕ
  pub body : Result Bytes

-- The values of a JSON object that the collector's request holds.
pub data Json : Type 0 where
  string : Bytes → Json
  number : ℕ → Json
  boolean : Bool → Json

pub record Web : Type 0 where
  -- `http.NewRequestWithContext` and then `client.Do`.
  pub send : Request → Result Response
  -- `String` of a `url.URL` of a scheme, a user and password, a host with its port, and a path.
  pub build_url : Bytes → Option (Bytes × Bytes) → Bytes → Bytes → Bytes
  pub parse_url : Bytes → Result Bytes
  pub join_path : Bytes → Bytes → Bytes
  -- `url.Values.Encode`, and a URL that has that query.
  pub encode_query : List (Bytes × Bytes) → Bytes
  pub with_query : Bytes → Bytes → Bytes
  pub marshal_object : List (Bytes × Json) → Result Bytes
  pub unmarshal_strings : Bytes → Result (List (Bytes × Bytes))

abbrev pub status_ok : ℕ
status_ok = 200

abbrev pub status_created : ℕ
status_created = 201

abbrev pub unexpected_status : Error
unexpected_status = message (codes "unexpected status code")

-- `if resp.StatusCode != expected { return error }`.
abbrev pub expect_status : ℕ → Response → Result Response
expect_status expected resp =
    if resp.status_code == expected then ok resp else err unexpected_status
