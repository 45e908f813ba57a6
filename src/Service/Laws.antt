-- ===== src/Service/Laws.antt =====
-- What holds once the chain service (attestor/chainService/main.go) has started.
use mathlib.Core.Path.{subst}
use verulink.Base.{
  Bool, ◌≡◌, sym, ap, ◌∙◌, true, List, Bytes, Result, ok, some, All, bind_ok, ok-injective,
}
use verulink.Config.{ChainConfig}
use verulink.Config.Laws.{IsChainId, validate_chain_config_dests}
use verulink.Config.Init.{Os, FlagArgs, Config, init_config}
use verulink.Config.InitLaws.{IsSettled, init_config-IsSettled}
use verulink.Store.Bolt.{Bolt}
use verulink.Store.Bolt.Entries.{Entry}
use verulink.Relay.Digest.{Digest}
use verulink.Relay.Web.{Web}
use verulink.Relay.Signer.{setup_signer}
use verulink.Relay.Screener.{namespace}
use verulink.Relay.Collector.{key_pair_or_exit}
use verulink.Relay.Start.{start_relay, or_panics}
use verulink.Relay.Start.Laws.{HasWallets, start_relay-HasWallets, start_relay-reads}
use verulink.Service.{
  Running, Sections, Logging, init_log, init_metrics, relay_config, start_service,
}

-- What `main` has set up, given the flags and the yaml file.
pub record IsStarted (os : Os) (bolt : Bolt) (web : Web) (flags : FlagArgs) (yaml : Result Config)
    (sections : Sections) (open_db : Bytes → Result bolt.Db) (r : Running bolt.Db) : Type 0 where
  pub read : Config
  pub yaml_read : yaml ≡ ok read
  pub settled : IsSettled os flags read r.config
  pub dests :
      All
        (λ (c : ChainConfig). All (IsChainId read.chain_configs) c.dest_chains)
        r.config.chain_configs
  pub log_file : r.logging.file_name ≡ r.config.log_output_path
  pub opened : (db : bolt.Db) × (open_db r.config.db_path ≡ ok db)
  pub pusher : r.has_pusher ≡ true
  pub signer :
      setup_signer web (relay_config r.config sections).signing_service ≡ ok r.ready.signer_url
  pub wallets : HasWallets r.ready r.config.chain_configs
  pub screener : (es : List Entry) × (bolt.bucket r.db namespace ≡ some es)

init_metrics_pusher :
    (pem : Bytes) (key_pair : Result (Unit {0})) (has : Bool)
    → init_metrics (ok pem) key_pair ≡ ok has
    → has ≡ true
unfolding init_metrics
init_metrics_pusher pem key_pair has e =
    let (u, loaded, last) = bind_ok (key_pair_or_exit key_pair) _ has e in sym (ok-injective last)

init_log_file :
    (rotate : Bytes → Result (Unit {0})) (mode path encoding : Bytes) (l : Logging)
    → init_log rotate mode path encoding ≡ ok l
    → l.file_name ≡ path
unfolding init_log
init_log_file rotate mode path encoding l e =
    let (u, rotated, last) = bind_ok (or_panics (rotate path)) _ l e in
    ap (λ (x : Logging). x.file_name) (sym (ok-injective last))

-- If `main` comes to the goroutines of the relay: the yaml file was read; the configuration is settled,
-- so that its paths were accepted, the number of workers is that of the file, or 10 for 0, and the
-- mode is one of three; every destination of every chain is the id of a configured chain; the log
-- goes to its log file; the store was opened at its path; the metrics have a pusher; the signing
-- service has answered; the collector has a wallet for every chain; and the bucket of the screener
-- is in the store.
pub start_service-IsStarted :
    (os : Os) (rotate : Bytes → Result (Unit {0})) (bolt : Bolt) (digest : Digest) (web : Web)
    (flags : FlagArgs) (yaml : Result Config) (sections : Sections) (ca_cert : Result Bytes)
    (key_pair : Result (Unit {0})) (open_db : Bytes → Result bolt.Db) (r : Running bolt.Db)
    → start_service os rotate bolt digest web flags yaml sections ca_cert key_pair open_db ≡ ok r
    → IsStarted os bolt web flags yaml sections open_db r
unfolding start_service
start_service-IsStarted os rotate bolt digest web flags yaml sections ca_cert key_pair open_db r e =
    let (cfg, configured, e1) = bind_ok (init_config os flags yaml) _ r e in
    let (logging, logs, e2) =
      bind_ok (init_log rotate cfg.mode cfg.log_output_path cfg.log_encoding) _ r e1 in
    let (has, metrics, e3) = bind_ok (init_metrics ca_cert key_pair) _ r e2 in
    let (db, opened, e4) = bind_ok (open_db cfg.db_path) _ r e3 in
    let (ready, run, last) =
      bind_ok (start_relay bolt digest web ca_cert key_pair (relay_config cfg sections) db).0 _ r
        e4 in
    let (read, yaml_read, settled) = init_config-IsSettled os flags yaml cfg configured in
    let (signer, wallets, es, there) =
      start_relay-HasWallets bolt digest web ca_cert key_pair (relay_config cfg sections) db ready
        run in
    let (pem, readable) =
      start_relay-reads bolt digest web ca_cert key_pair (relay_config cfg sections) db ready run in
    subst (λ x. IsStarted os bolt web flags yaml sections open_db x) (ok-injective last)
      (record {
        read = read;
        yaml_read = yaml_read;
        settled = settled;
        dests = validate_chain_config_dests read.chain_configs cfg.chain_configs settled.chains;
        log_file = init_log_file rotate cfg.mode cfg.log_output_path cfg.log_encoding logging logs;
        opened = (db, opened);
        pusher =
            init_metrics_pusher pem key_pair has
              (ap (λ c. init_metrics c key_pair) (sym readable) ∙ metrics);
        signer = signer;
        wallets = wallets;
        screener = (es, there);
      })
