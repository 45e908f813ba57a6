-- ===== src/Service.antt =====
-- The start of the chain service: attestor/chainService/main.go, and what it sets up first of
-- attestor/chainService/logger/logger.go and attestor/chainService/metrics/metrics.go. `os.Exit` is
-- an error here and `log.Fatal` a panic. The yaml file, the files of certificates, the rotation of the log file
-- and the opening of the store are parameters.
pub mod Laws
use verulink.Base.{
  ℕ, Bool, true, false, List, Bytes, codes, eqb, Result, ok, err, panics, ◌>>=◌, ◌||◌,
  if◌then◌else◌,
}
use verulink.Config.Init.{Os, FlagArgs, Config, init_config}
use verulink.Store.Bolt.{Bolt}
use verulink.Relay.Digest.{Digest}
use verulink.Relay.Web.{Web}
use verulink.Relay.Signer.{SigningServiceConfig}
use verulink.Relay.Collector.{CollectorServiceConfig, key_pair_or_exit}
use verulink.Relay.Feeder.{Registered}
use verulink.Relay.Start.{RelayConfig, Ready, start_relay, or_panics}

-- How the log file is rotated.
pub record LogRotation : Type 0 where
  pub max_size : ℕ
  pub max_backup : ℕ
  pub max_age : ℕ
  pub compress : Bool

unfoldable pub get_log_config : Bytes → LogRotation
get_log_config mode =
    if eqb mode (codes "prod")
    then record { max_size = 100; max_backup = 100; max_age = 180; compress = true }
    else record { max_size = 10; max_backup = 2; max_age = 2; compress = false }

pub record Logging : Type 0 where
  pub file_name : Bytes
  pub rotation : LogRotation
  pub to_stdout : Bool
  pub json : Bool
  pub for_production : Bool

-- `initLog`, which panics if the file cannot be rotated.
unfoldable pub init_log : (Bytes → Result (Unit {0})) → Bytes → Bytes → Bytes → Result Logging
unfolding get_log_config
init_log rotate mode output_path encoding = do
  rotated ← or_panics (rotate output_path)
  ok (record {
    file_name = output_path;
    rotation = get_log_config mode;
    to_stdout = eqb mode (codes "dev") || eqb mode (codes "stage");
    json = eqb encoding (codes "json");
    for_production = eqb mode (codes "prod");
  })

-- `InitMetrics`, with what `main` makes of it: an error is only logged, and leaves a nil pusher. The
-- result tells whether there is a pusher.
unfoldable pub init_metrics : Result Bytes → Result (Unit {0}) → Result Bool
init_metrics (ok ca_cert) attestor_cert = do loaded ← key_pair_or_exit attestor_cert; ok true
init_metrics (err e) attestor_cert = ok false
init_metrics panics attestor_cert = panics

-- What has been set up when the goroutines of the relay run.
pub record Running (Db : Type 0) : Type 0 where
  pub config : Config
  pub logging : Logging
  pub has_pusher : Bool
  pub ready : Ready
  pub db : Db

-- The sections of the configuration that `InitConfig` passes on.
pub record Sections : Type 0 where
  pub signing_service : SigningServiceConfig
  pub collector_service : CollectorServiceConfig

abbrev pub relay_config : Config → Sections → RelayConfig
relay_config cfg sections = record {
  chain_configs = cfg.chain_configs;
  signing_service = record sections.signing_service { scheme = cfg.signing_scheme };
  collector_service = sections.collector_service;
}

module _ (os : Os) (rotate : Bytes → Result (Unit {0})) (bolt : Bolt) (digest : Digest)
    (web : Web) where
  open bolt use {Db}

  -- `main`: the relay sets up the collector with the same two files as the metrics.
  unfoldable pub start_service :
      FlagArgs
      → Result Config
      → Sections
      → Result Bytes
      → Result (Unit {0})
      → (Bytes → Result Db)
      → Result (Running Db)
  unfolding init_log init_metrics
  start_service flags yaml sections ca_cert key_pair open_db = do
    cfg ← init_config os flags yaml
    logging ← init_log rotate cfg.mode cfg.log_output_path cfg.log_encoding
    has_pusher ← init_metrics ca_cert key_pair
    db ← open_db cfg.db_path
    ready ← (start_relay bolt digest web ca_cert key_pair (relay_config cfg sections) db).0
    ok (record {
      config = cfg;
      logging = logging;
      has_pusher = has_pusher;
      ready = ready;
      db = (start_relay bolt digest web ca_cert key_pair (relay_config cfg sections) db).1;
    })
