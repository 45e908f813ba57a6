-- ===== src/Relay/Start/Laws.antt =====
-- What is set up once `StartRelay` (attestor/chainService/relay/relays.go) comes to its goroutines.
use mathlib.Core.Path.{subst}
use verulink.Base.{
  ℕ, ◌≡◌, inl, inr, sym, ap, ◌∙◌, List, [], ◌∷◌, some, Bytes, Result, ok, err, panics, All, bind_ok,
  Result-cases, ok-injective, eqb_refl, arith, ◌>>=◌, or_empty,
}
use verulink.Chain.BigInt.{big_string}
use verulink.Config.{ChainConfig}
use verulink.Store.Bolt.{Bolt, IsKey}
use verulink.Store.Bolt.Entries.{Entry}
use verulink.Store.Ops.{create_bucket}
use verulink.Store.Db.{create_namespace}
use verulink.Relay.Digest.{Digest}
use verulink.Relay.Web.{Web}
use verulink.Relay.Signer.{setup_signer}
use verulink.Relay.Screener.{namespace, setup_screen_service}
use verulink.Relay.Collector.{Collector, CollectorServiceConfig, setup_collector, key_pair_or_exit}
use verulink.Relay.Feeder.{IsKnown, IsKnown-cons, IsKnown-here}
use verulink.Relay.Start.{
  RelayConfig, Ready, chain_id_to_address, or_panics, set_up_collector, start_relay,
}

chain_id_to_address_keeps :
    (cfgs : List ChainConfig) (m : List (Bytes × Bytes)) (id : Bytes)
    → IsKnown m id
    → IsKnown (chain_id_to_address cfgs m) id
unfolding chain_id_to_address
chain_id_to_address_keeps [] m id known = known
chain_id_to_address_keeps (v ∷ cfgs) m id known =
    chain_id_to_address_keeps cfgs ((big_string v.chain_id, v.wallet_address) ∷ m) id
      (IsKnown-cons m (big_string v.chain_id) v.wallet_address id known)

chain_id_to_address-IsKnown :
    (cfgs : List ChainConfig) (m : List (Bytes × Bytes))
    → All (λ (c : ChainConfig). IsKnown (chain_id_to_address cfgs m) (big_string c.chain_id)) cfgs
unfolding chain_id_to_address
chain_id_to_address-IsKnown [] m = tt
chain_id_to_address-IsKnown (v ∷ cfgs) m =
    let next : List (Bytes × Bytes) = (big_string v.chain_id, v.wallet_address) ∷ m in
    (
      chain_id_to_address_keeps cfgs next (big_string v.chain_id)
          (IsKnown-here m (big_string v.chain_id) v.wallet_address),
      chain_id_to_address-IsKnown cfgs next,
    )

or_panics_ok {ℓ} : {A : Type ℓ} (r : Result A) (a : A) → or_panics r ≡ ok a → r ≡ ok a
or_panics_ok (ok b) a e = e
or_panics_ok (err x) a e = cc
or_panics_ok panics a e = cc

setup_collector_wallets :
    (ca_cert : Result Bytes) (key_pair : Result (Unit {0})) (cfg : CollectorServiceConfig)
    (m : List (Bytes × Bytes)) (wait : ℕ) (c : Collector)
    → setup_collector ca_cert key_pair cfg m wait ≡ ok c
    → c.chain_id_to_address ≡ m
unfolding setup_collector
setup_collector_wallets ca_cert key_pair cfg m wait c e =
    let (pem, read, e1) = bind_ok ca_cert _ c e in
    let (_, loaded, last) = bind_ok (key_pair_or_exit key_pair) _ c e1 in
    ap (λ (x : Collector). x.chain_id_to_address) (sym (ok-injective last))

-- Every chain has a wallet.
abbrev pub HasWallets : Ready → List ChainConfig → Type 0
HasWallets ready cfgs =
    All (λ (c : ChainConfig). IsKnown ready.collector.chain_id_to_address (big_string c.chain_id))
      cfgs

module _ (bolt : Bolt) (digest : Digest) (web : Web) (ca_cert : Result Bytes)
    (key_pair : Result (Unit {0})) where
  set_up_collector-HasWallets :
      (cfg : RelayConfig) (url : Bytes) (ready : Ready)
      → set_up_collector bolt digest web ca_cert key_pair cfg url ≡ ok ready
      → (ready.signer_url ≡ url) × HasWallets ready cfg.chain_configs
  unfolding set_up_collector
  set_up_collector-HasWallets cfg url ready e =
      let wallets : List (Bytes × Bytes) = chain_id_to_address cfg.chain_configs [] in
      let wait : ℕ = cfg.collector_service.collector_wait_dur in
      let (coll, collected, last) =
        bind_ok (or_panics (setup_collector ca_cert key_pair cfg.collector_service wallets wait)) _
          ready e in
      let same : coll.chain_id_to_address ≡ wallets =
        setup_collector_wallets ca_cert key_pair cfg.collector_service wallets wait coll
          (or_panics_ok _ coll collected) in
      let set_up : Ready = record { signer_url = url; collector = coll } in
      let known : HasWallets set_up cfg.chain_configs =
        rw same (chain_id_to_address-IsKnown cfg.chain_configs []) in
      let done : set_up ≡ ready = ok-injective last in
      (
        ap (λ (r : Ready). r.signer_url) (sym done),
        subst (λ r. HasWallets r cfg.chain_configs) done known,
      )

module _ (bolt : Bolt) (digest : Digest) where
  open bolt use {Db, bucket, create_bucket_lem, update_ok, update}

  -- Where the screener could be set up, its bucket is there.
  setup_screen_service-there :
      (db : Db) (u : Unit {0})
      → (setup_screen_service bolt digest db).0 ≡ ok u
      → (es : List Entry) × (bucket (setup_screen_service bolt digest db).1 namespace ≡ some es)
  unfolding setup_screen_service create_namespace create_bucket
  setup_screen_service-there db u e =
      let key : IsKey namespace = omega arith in
      let (after, created, held) = create_bucket_lem db namespace key in
      elim (update_ok db after) [
        | inl done ↦ (
          or_empty (bucket db namespace),
          rw (setup_screen_service, create_namespace, create_bucket, created, done)
              (held namespace ∙ rw eqb_refl),
        )
        | inr (x, bad) ↦
            let no : panics ≡ ok u =
              rw (setup_screen_service, create_namespace, create_bucket, created, bad) at e in
            absurd (cc)
      ]

  module _ (web : Web) (ca_cert : Result Bytes) (key_pair : Result (Unit {0})) where
    -- The steps of `StartRelay` that have succeeded.
    start_relay_parts :
        (cfg : RelayConfig) (db : Db) (ready : Ready)
        → (start_relay bolt digest web ca_cert key_pair cfg db).0 ≡ ok ready
        → (url : Bytes) × (u : Unit {0}) × (setup_signer web cfg.signing_service ≡ ok url)
          × ((setup_screen_service bolt digest db).0 ≡ ok u)
          × (set_up_collector bolt digest web ca_cert key_pair cfg url ≡ ok ready)
          × ((start_relay bolt digest web ca_cert key_pair cfg db).1
              ≡ (setup_screen_service bolt digest db).1)
    unfolding start_relay
    start_relay_parts cfg db ready e = elim (Result-cases (setup_signer web cfg.signing_service)) [
      | inr (inl (x, bad)) ↦ let no : panics ≡ ok ready = rw (start_relay, bad) at e in absurd (cc)
      | inr (inr bad) ↦ let no : panics ≡ ok ready = rw (start_relay, bad) at e in absurd (cc)
      | inl (url, reached) ↦
          let screener : Result (Unit {0}) × Db = setup_screen_service bolt digest db in
          let run : (screener.0 >>= λ done.
          set_up_collector bolt digest web ca_cert key_pair cfg url)
              ≡ ok ready =
            rw (start_relay, reached) at e in
          let (u, made, e1) = bind_ok screener.0 _ ready run in
          (url, u, reached, made, e1, rw (start_relay, reached))
    ]

    -- If `StartRelay` comes to its goroutines: the signing service has answered, the collector has a
    -- wallet under the id of every configured chain, and the screener's bucket is in the store.
    pub start_relay-HasWallets :
        (cfg : RelayConfig) (db : Db) (ready : Ready)
        → (start_relay bolt digest web ca_cert key_pair cfg db).0 ≡ ok ready
        → (setup_signer web cfg.signing_service ≡ ok ready.signer_url)
          × HasWallets ready cfg.chain_configs
          × (es : List Entry) × (bucket
                (start_relay bolt digest web ca_cert key_pair cfg db).1
                namespace
              ≡ some es)
    start_relay-HasWallets cfg db ready e =
        let (url, u, reached, made, set_up, after) = start_relay_parts cfg db ready e in
        let (es, there) = setup_screen_service-there db u made in
        let (same, known) =
          set_up_collector-HasWallets bolt digest web ca_cert key_pair cfg url ready set_up in
        (reached ∙ ap ok (sym same), known, es, rw after there)

    -- The certificate of the authority could be read.
    pub start_relay-reads :
        (cfg : RelayConfig) (db : Db) (ready : Ready)
        → (start_relay bolt digest web ca_cert key_pair cfg db).0 ≡ ok ready
        → (pem : Bytes) × (ca_cert ≡ ok pem)
    unfolding set_up_collector setup_collector
    start_relay-reads cfg db ready e =
        let (url, u, reached, made, set_up, after) = start_relay_parts cfg db ready e in
        let (coll, collected, e1) =
          bind_ok
            (or_panics (
              setup_collector ca_cert key_pair cfg.collector_service
                (chain_id_to_address cfg.chain_configs [])
                cfg.collector_service.collector_wait_dur))
            _ ready set_up in
        let (pem, read, e2) = bind_ok ca_cert _ coll (or_panics_ok _ coll collected) in (pem, read)
