-- ===== src/Signing/StartLaws.antt =====
-- The keys with which the signing service starts are those of the configured wallets.
use mathlib.Core.Path.{subst}
use verulink.Base.{
  ◌≡◌, ◌⊎◌, inl, inr, refl, sym, ap, [], ◌∷◌, Option, none, some, Bytes, codes, ok, err, message,
  bind_ok, ok-injective, not, All, if◌then◌else◌,
}
use verulink.Signing.Ethereum.{Crypto}
use verulink.Signing.Aleo.{Tools}
use verulink.Signing.Service.{set_up_chains}
use verulink.Signing.Start.{
  SigningConfig, KeyPair, ChainKeys, Keys, Files, Started, load_config, load_keys,
  is_ahs_command_available, set_up_key, set_up_keys, start,
}
use verulink.Signing.KeyLaws.{DerivesEthereum, DerivesAleo, set_up_key_cases}

-- An entry of the file of keys.
abbrev pub HasEntry : Bytes → KeyPair → ChainKeys → Type 0
HasEntry name pair [] = ⊥
HasEntry name pair ((n, o) ∷ m) = ((n ≡ name) × (o ≡ some pair)) ⊎ HasEntry name pair m

module _ (crypto : Crypto) (tools : Tools) where
  open crypto use {PrivateKey}

  -- A key that is set is one of an entry of the file, whose wallet it derives.
  pub record AreDerived (m : ChainKeys) (keys : Keys PrivateKey) : Type 0 where
    pub ethereum :
        (k : PrivateKey)
        → keys.p_key ≡ some k
        → (pair : KeyPair) × HasEntry (codes "ethereum") pair m
          × DerivesEthereum crypto tools pair k
    pub aleo :
        (keys.s_key ≡ [])
        ⊎ ((pair : KeyPair) × HasEntry (codes "aleo") pair m
            × DerivesAleo crypto tools pair keys.s_key)

  round-AreDerived :
      (m : ChainKeys) (name : Bytes) (o : Option KeyPair) (keys after : Keys PrivateKey)
      → ((pair : KeyPair) → o ≡ some pair → HasEntry name pair m)
      → set_up_key crypto tools name o keys ≡ ok after
      → AreDerived m keys
      → AreDerived m after
  round-AreDerived m name o keys after entry e d =
      elim (set_up_key_cases crypto tools name o keys after e) [
        | inl (pair, s, named, there, derives, same) ↦ rw same (record {
          ethereum = d.ethereum;
          aleo = inr (pair, subst (λ n. HasEntry n pair m) named (entry pair there), derives);
        })
        | inr (pair, k, named, there, derives, same) ↦ rw same (record {
          ethereum = λ j set. (
            pair,
            subst (λ n. HasEntry n pair m) named (entry pair there),
            subst (λ x. DerivesEthereum crypto tools pair x) (let q : k ≡ j = cc in q) derives,
          );
          aleo = d.aleo;
        })
      ]

  set_up_keys-AreDerived :
      (m rest : ChainKeys) (keys after : Keys PrivateKey)
      → ((name : Bytes) (pair : KeyPair) → HasEntry name pair rest → HasEntry name pair m)
      → set_up_keys crypto tools rest keys ≡ ok after
      → AreDerived m keys
      → AreDerived m after
  unfolding set_up_keys
  set_up_keys-AreDerived m [] keys after sub e d = subst (λ x. AreDerived m x) (ok-injective e) d
  set_up_keys-AreDerived m ((name, o) ∷ rest) keys after sub e d =
      let (mid, first, run) = bind_ok (set_up_key crypto tools name o keys) _ after e in
      set_up_keys-AreDerived m rest mid after (λ n pair h. sub n pair (inr h)) run
        (round-AreDerived m name o keys mid (λ pair there. sub name pair (inl (refl, there))) first
          d)

  -- An entry is a pair for aleo or for ethereum, whose key derives its wallet.
  abbrev pub IsValidEntry : Bytes × Option KeyPair → Type 0
  IsValidEntry (name, o) =
      (pair : KeyPair) × (o ≡ some pair)
      × (((name ≡ codes "aleo") × ((s : Bytes) × DerivesAleo crypto tools pair s))
          ⊎ ((name ≡ codes "ethereum") × ((k : PrivateKey) × DerivesEthereum crypto tools pair k)))

  set_up_keys-IsValidEntry :
      (m : ChainKeys) (keys after : Keys PrivateKey)
      → set_up_keys crypto tools m keys ≡ ok after
      → All IsValidEntry m
  unfolding set_up_keys
  set_up_keys-IsValidEntry [] keys after e = tt
  set_up_keys-IsValidEntry ((name, o) ∷ m) keys after e =
      let (mid, first, run) = bind_ok (set_up_key crypto tools name o keys) _ after e in
      (
        elim (set_up_key_cases crypto tools name o keys mid first) [
          | inl (pair, s, named, there, derives, same) ↦ (pair, there, inl (named, (s, derives)))
          | inr (pair, k, named, there, derives, same) ↦ (pair, there, inr (named, (k, derives)))
        ],
        set_up_keys-IsValidEntry m mid after run,
      )

  -- Where the service starts, its configuration and keys could be read; every entry of the keys is
  -- for aleo or ethereum and derives its wallet; the keys that are set are those of such entries;
  -- and the chains and the credentials are the configured ones.
  pub start-AreDerived :
      (files : Files) (config_path key_path : Bytes) (out : Started PrivateKey)
      → start crypto tools files config_path key_path ≡ ok out
      → (cfg : SigningConfig) × (m : ChainKeys) × (load_config files config_path ≡ ok cfg)
        × (load_keys files key_path ≡ ok m)
        × (out.chain_id_to_name ≡ set_up_chains cfg.chains [])
        × (out.cred ≡ cfg.cred)
        × All IsValidEntry m
        × AreDerived m out.keys
  unfolding start
  start-AreDerived files config_path key_path out e =
      let (cfg, configured, e1) = bind_ok (load_config files config_path) _ out e in
      let (_, available, e2) =
        bind_ok
          (if not (is_ahs_command_available files)
            then err (message (codes "Ahs(Aleo hasher+signer) command is not available"))
            else ok (tt {0}))
          _ out e1 in
      let (m, loaded, e3) = bind_ok (load_keys files key_path) _ out e2 in
      let nothing : Keys PrivateKey = record { p_key = none; s_key = [] } in
      let (keys, set, last) = bind_ok (set_up_keys crypto tools m nothing) _ out e3 in
      let none_set : AreDerived m nothing = record {
        ethereum = λ k q. absurd (cc);
        aleo = inl refl;
      } in
      (
        cfg,
        m,
        configured,
        loaded,
        ap (λ (s : Started PrivateKey). s.chain_id_to_name) (sym (ok-injective last)),
        ap (λ (s : Started PrivateKey). s.cred) (sym (ok-injective last)),
        set_up_keys-IsValidEntry m nothing keys set,
        subst (λ (s : Started PrivateKey). AreDerived m s.keys) (ok-injective last)
            (set_up_keys-AreDerived m m nothing keys (λ n pair h. h) set none_set),
      )
