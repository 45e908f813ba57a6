-- ===== src/Signing/Start.antt =====
-- attestor/signingService/config/config.go and main.go: the configuration, the keys, and what
-- `main` does before it serves. Files, yaml and the search of `$PATH` are parameters. Where `main`
-- puts a text in front of an error, the error itself is kept.
use verulink.Base.{
  List, [], ◌∷◌, Bool, true, false, Option, none, some, Bytes, codes, Result, ok, err, panics,
  message, or_panic, eqb, if◌then◌else◌, ◌>>=◌, not,
}
use verulink.Signing.Ethereum.{Crypto}
use verulink.Signing.Aleo.{Tools}
use verulink.Signing.Service.{ChainEntry, set_up_chains}
use verulink.Signing.Ethereum
use verulink.Signing.Aleo

pub record Cred : Type 0 where
  pub username : Bytes
  pub password : Bytes

pub record SigningConfig : Type 0 where
  pub chains : List ChainEntry
  pub cred : Cred

pub record KeyPair : Type 0 where
  pub private_key : Bytes
  pub wallet_address : Bytes

-- The entries of a yaml map of pointers: a null gives a nil pointer.
abbrev pub ChainKeys : Type 0
ChainKeys = List (Bytes × Option KeyPair)

pub record Files : Type 0 where
  pub read_file : Bytes → Result Bytes
  pub parse_config : Bytes → Result SigningConfig
  -- The pairs in the order in which `range` visits the map.
  pub parse_keys : Bytes → Result ChainKeys
  pub look_path : Bytes → Result Bytes

-- The package variables `pKey`, nil before it is set, and `sKey`.
pub record Keys (PrivateKey : Type 0) : Type 0 where
  pub p_key : Option PrivateKey
  pub s_key : Bytes

-- What the handlers find once `main` has come to `serve`.
pub record Started (PrivateKey : Type 0) : Type 0 where
  pub chain_id_to_name : List (Bytes × Bytes)
  pub cred : Cred
  pub keys : Keys PrivateKey

abbrev is_ok {ℓ} : {A : Type ℓ} → Result A → Bool
is_ok (ok a) = true
is_ok (err e) = false
is_ok panics = false

module _ (files : Files) where
  open files use {read_file, parse_config, parse_keys, look_path}

  unfoldable pub load_config : Bytes → Result SigningConfig
  load_config config_path = do b ← read_file config_path; parse_config b

  unfoldable pub load_keys : Bytes → Result ChainKeys
  load_keys key_path = do b ← read_file key_path; parse_keys b

  unfoldable pub is_ahs_command_available : Bool
  is_ahs_command_available = is_ok (look_path (codes "ahs"))

module _ (crypto : Crypto) (tools : Tools) where
  open crypto use {PrivateKey}

  -- One round of the loop over the keys.
  unfoldable pub set_up_key : Bytes → Option KeyPair → Keys PrivateKey → Result (Keys PrivateKey)
  set_up_key chain_name key_pair keys =
      if eqb chain_name (codes "aleo")
      then (do
        pair ← or_panic key_pair
        key ← verulink.Signing.Aleo.set_up_private_key tools pair.private_key pair.wallet_address
        ok (record keys { s_key = key }))
      else if eqb chain_name (codes "ethereum")
      then (do
        pair ← or_panic key_pair
        key ←
            verulink.Signing.Ethereum.set_up_private_key crypto pair.private_key pair.wallet_address
        ok (record keys { p_key = some key }))
      else err (message (codes "unsupported chain"))

  unfoldable pub set_up_keys : ChainKeys → Keys PrivateKey → Result (Keys PrivateKey)
  unfolding set_up_key
  set_up_keys [] keys = ok keys
  set_up_keys ((chain_name, key_pair) ∷ rest) keys = do
    after ← set_up_key chain_name key_pair keys
    set_up_keys rest after

  unfoldable pub start : Files → Bytes → Bytes → Result (Started PrivateKey)
  unfolding load_config load_keys is_ahs_command_available set_up_keys
  start files config_path key_path = do
    cfg ← load_config files config_path
    available ←
        if not (is_ahs_command_available files)
        then err (message (codes "Ahs(Aleo hasher+signer) command is not available"))
        else ok (tt {0})
    m ← load_keys files key_path
    keys ← set_up_keys m (record { p_key = none; s_key = [] })
    ok (record { chain_id_to_name = set_up_chains cfg.chains []; cred = cfg.cred; keys = keys })
