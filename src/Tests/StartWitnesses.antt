-- ===== src/Tests/StartWitnesses.antt =====
-- The start of the signing service at concrete files.
use verulink.Base.{◌≡◌, refl, [], ◌∷◌, some, Bytes, codes, eqb, ok, All}
use verulink.Chain.BigInt.{pos}
use verulink.Signing.Aleo.{Tools, validate_aleo_private_key}
use verulink.Signing.Ethereum.{validate_key}
use verulink.Signing.Service.{set_up_chains}
use verulink.Signing.Start.{
  SigningConfig, ChainKeys, Files, Started, load_config, load_keys, is_ahs_command_available,
  set_up_key, set_up_keys, start,
}
use verulink.Signing.StartLaws.{IsValidEntry, AreDerived, start-AreDerived}
use verulink.Signing.Aleo
use verulink.Signing.Ethereum
use verulink.Tests.SigningWitnesses.{crypto}

-- `ahs` finds the same wallet for every key.
abbrev tools : Tools
tools = record { ahs = λ args. ok (codes "aleo1"); hex_to_address = λ s. s }

abbrev config : SigningConfig
config = record {
  chains = record { name = codes "ethereum"; chain_id = pos 1 } ∷ [];
  cred = record { username = codes "u"; password = codes "p" };
}

abbrev two_keys : ChainKeys
two_keys =
    (codes "aleo", some (record { private_key = codes "k"; wallet_address = codes "aleo1" }))
    ∷ (codes "ethereum", some (record { private_key = codes "0xff"; wallet_address = codes "ff" }))
    ∷ []

abbrev files : Files
files = record {
  read_file = λ path. ok path;
  parse_config = λ b. ok config;
  parse_keys = λ b. ok two_keys;
  look_path = λ c. ok c;
}

abbrev started : Started Bytes
started = record {
  chain_id_to_name = set_up_chains config.chains [];
  cred = config.cred;
  keys = record { p_key = some (codes "ff"); s_key = codes "k" };
}

starts : start crypto tools files (codes "c") (codes "k") ≡ ok started
unfolding start load_config load_keys is_ahs_command_available set_up_keys set_up_key
    verulink.Signing.Aleo.set_up_private_key verulink.Signing.Ethereum.set_up_private_key
    validate_key validate_aleo_private_key eqb
starts = refl

start-AreDerived_example :
    (cfg : SigningConfig) × (m : ChainKeys) × (load_config files (codes "c") ≡ ok cfg)
    × (load_keys files (codes "k") ≡ ok m)
    × (started.chain_id_to_name ≡ set_up_chains cfg.chains [])
    × (started.cred ≡ cfg.cred)
    × All (IsValidEntry crypto tools) m
    × AreDerived crypto tools m started.keys
start-AreDerived_example =
    start-AreDerived crypto tools files (codes "c") (codes "k") started starts
