-- ===== src/Signing/Service.antt =====
-- attestor/signingService/chain/chain.go and serve.go: the dispatch by destination, and the handlers.
use verulink.Base.{
  List, [], ◌∷◌, ◌++◌, Bytes, codes, Result, ok, err, panics, Error, message, ◌>>=◌, if◌then◌else◌,
  eqb, ◌&&◌, not, or_err, lookup,
}
use verulink.Chain.{ScreenedPacket}
use verulink.Chain.BigInt.{ℤ, big_string}
use verulink.Signing.Ethereum.{Crypto}
use verulink.Signing.Aleo.{Tools}
use verulink.Signing.Ethereum
use verulink.Signing.Aleo

-- A chain of the configuration: its name and its id.
pub record ChainEntry : Type 0 where
  pub name : Bytes
  pub chain_id : ℤ

-- `chainIDToName`: the pair that was put last is found first, as an assignment would replace it.
unfoldable pub set_up_chains : List ChainEntry → List (Bytes × Bytes) → List (Bytes × Bytes)
set_up_chains [] m = m
set_up_chains (c ∷ cs) m = set_up_chains cs ((big_string c.chain_id, c.name) ∷ m)

-- A signer for each chain that `HashAndSign` distinguishes.
pub record Signers : Type 0 where
  pub aleo : ScreenedPacket → Result (Bytes × Bytes)
  pub ethereum : ScreenedPacket → Result (Bytes × Bytes)

unfoldable pub signers : (crypto : Crypto) → crypto.PrivateKey → Tools → Bytes → Signers
signers crypto p_key tools s_key = record {
  aleo = λ sp. verulink.Signing.Aleo.hash_and_sign tools s_key sp;
  ethereum = λ sp. verulink.Signing.Ethereum.hash_and_sign crypto p_key sp;
}

-- The `switch` on the name of the chain.
abbrev pub sign_for : Signers → Bytes → ScreenedPacket → Result (Bytes × Bytes)
sign_for s name sp =
    if eqb name (codes "aleo")
    then s.aleo sp
    else if eqb name (codes "ethereum")
    then s.ethereum sp
    else err (message (codes "chain is not supported"))

-- `HashAndSign`, given what `json.Unmarshal` makes of the data.
unfoldable pub hash_and_sign :
    Signers → List (Bytes × Bytes) → Result ScreenedPacket → Result (Bytes × Bytes)
hash_and_sign s chain_id_to_name decoded = do
  sp ← decoded
  name ←
      or_err (lookup (big_string sp.packet.destination.chain_id) chain_id_to_name)
        (message (codes "chain-id is not supported"))
  sign_for s name sp

-- A request, with the credentials of its basic authentication (empty where it has none).
pub record SignRequest : Type 0 where
  pub username : Bytes
  pub password : Bytes
  pub method : Bytes
  pub body : Result Bytes

-- What the handler answers. A panic closes the connection.
pub data Reply : Type 0 where
  forbidden : Reply
  bad_request : Bytes → Reply
  failed : Error → Reply
  signed : Bytes → Bytes → Reply
  dropped : Reply

abbrev pub reply_of : Result (Bytes × Bytes) → Reply
reply_of (ok (hash, signature)) = signed hash signature
reply_of (err e) = failed e
reply_of panics = dropped

-- The handler of `/sign`.
unfoldable pub serve_sign :
    Signers
    → List (Bytes × Bytes)
    → Bytes
    → Bytes
    → (Bytes → Result ScreenedPacket)
    → SignRequest
    → Reply
unfolding hash_and_sign
serve_sign s chain_id_to_name cfg_user cfg_pass unmarshal r =
    if not (eqb r.username cfg_user && eqb r.password cfg_pass)
    then forbidden
    else if not (eqb r.method (codes "POST"))
    then bad_request (codes "method " ++ r.method ++ codes " not supported")
    else reply_of (do data_read ← r.body; hash_and_sign s chain_id_to_name (unmarshal data_read))
