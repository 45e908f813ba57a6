-- ===== src/Relay/Start.antt =====
-- attestor/chainService/relay/relays.go: `StartRelay`, up to where it starts its goroutines, and the
-- health checks. The clients are made by one of the goroutines (Relay/Feeder, Relay/Restart).
pub mod Laws
use mathlib.Core.Path.{subst}
use verulink.Base.{
  ℕ, ◌≡◌, inl, inr, refl, sym, ap, ◌∙◌, List, [], ◌∷◌, some, Bytes, Result, ok, err, panics, All,
  bind_ok, ok-injective, eqb_refl, arith, ◌>>=◌, or_empty, if◌then◌else◌, codes, length,
}
use verulink.Chain.BigInt.{big_string}
use verulink.Config.{ChainConfig}
use verulink.Store.Bolt.{Bolt, IsKey}
use verulink.Store.Bolt.Entries.{Entry}
use verulink.Store.Ops.{create_bucket}
use verulink.Store.Db.{create_namespace}
use verulink.Relay.Digest.{Digest}
use verulink.Relay.Web.{Web}
use verulink.Relay.Signer.{SigningServiceConfig, setup_signer, check_signing_service_health}
use verulink.Relay.Screener.{namespace, setup_screen_service, or_crash}
use verulink.Relay.Collector.{
  Collector, CollectorServiceConfig, setup_collector, check_collector_health,
}

pub record RelayConfig : Type 0 where
  pub chain_configs : List ChainConfig
  pub signing_service : SigningServiceConfig
  pub collector_service : CollectorServiceConfig

-- What the goroutines of the relay share.
pub record Ready : Type 0 where
  pub signer_url : Bytes
  pub collector : Collector

-- The loop that fills `chainIdToAddress`: the pair that was put last is found first.
unfoldable pub chain_id_to_address : List ChainConfig → List (Bytes × Bytes) → List (Bytes × Bytes)
chain_id_to_address [] m = m
chain_id_to_address (v ∷ cfgs) m =
    chain_id_to_address cfgs ((big_string v.chain_id, v.wallet_address) ∷ m)

-- `if err != nil { panic(err) }`.
abbrev pub or_panics {ℓ} : {A : Type ℓ} → Result A → Result A
or_panics (ok a) = ok a
or_panics _ = panics

-- The value of a gauge after a check.
abbrev pub gauge : Result (Unit {0}) → Result ℕ
gauge (ok u) = ok 1
gauge (err e) = ok 0
gauge panics = panics

-- One tick of `checkHealthServices`: the gauges of the db-service and of the signing service.
unfoldable pub check_health_services : Web → Collector → SigningServiceConfig → Result (ℕ × ℕ)
check_health_services web c cfg = do
  db_service ← gauge (check_collector_health web c)
  signing_service ← gauge (check_signing_service_health web cfg)
  ok (db_service, signing_service)

module _ (bolt : Bolt) (digest : Digest) (web : Web) (ca_cert : Result Bytes)
    (key_pair : Result (Unit {0})) where
  open bolt use {Db, bucket}

  -- The set-up of the collector.
  unfoldable pub set_up_collector : RelayConfig → Bytes → Result Ready
  set_up_collector cfg url = do
    coll ← or_panics (
        setup_collector ca_cert key_pair cfg.collector_service
          (chain_id_to_address cfg.chain_configs []) cfg.collector_service.collector_wait_dur)
    ok (record { signer_url = url; collector = coll })

  unfoldable pub start_relay : RelayConfig → Db → Result Ready × Db
  unfolding set_up_collector
  start_relay cfg db = elim (or_panics (setup_signer web cfg.signing_service)) [
    | ok url ↦
        let (screener, after) = setup_screen_service bolt digest db in
        ((do done ← screener; set_up_collector cfg url), after)
    | err e ↦ (err e, db)
    | panics ↦ (panics, db)
  ]
