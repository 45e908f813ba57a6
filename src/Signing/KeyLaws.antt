-- ===== src/Signing/KeyLaws.antt =====
-- Which keys the signing service accepts: those that derive the wallet they are given with.
use mathlib.Core.Path.{subst}
use verulink.Base.{
  ◌≡◌, ◌⊎◌, inl, inr, refl, sym, ap, ◌∙◌, Bool, true, false, [], ◌∷◌, Option, none, some, Bytes,
  codes, ok, err, eqb, eqb_iff, Bool-cases, bind_ok, ok-injective, remove_first, or_panic, Error,
  if◌then◌else◌,
}
use verulink.Signing.Ethereum.{Crypto, validate_key}
use verulink.Signing.Aleo.{Tools, validate_aleo_private_key}
use verulink.Signing.Start.{KeyPair, Keys, set_up_key}
use verulink.Signing.Ethereum
use verulink.Signing.Aleo

or_panic-some {ℓ} : {A : Type ℓ} (o : Option A) (a : A) → or_panic o ≡ ok a → o ≡ some a
or_panic-some none a e = cc
or_panic-some (some b) a e = cc

if_ok : (b : Bool) (x : Error) (u : Unit {0}) → (if b then ok tt else err x) ≡ ok u → b ≡ true
if_ok true x u e = refl
if_ok false x u e = cc

module _ (crypto : Crypto) (tools : Tools) where
  open crypto use {PrivateKey, hex_to_ecdsa, wallet_of, equal_fold}
  open tools use {ahs}

  -- The key is read from the pair, and the pair's wallet is the one of the key.
  abbrev pub DerivesEthereum : KeyPair → PrivateKey → Type 0
  DerivesEthereum pair k =
      (hex_to_ecdsa (remove_first (codes "0x") pair.private_key) ≡ ok k)
      × (equal_fold (wallet_of k) pair.wallet_address ≡ true)

  abbrev pub DerivesAleo : KeyPair → Bytes → Type 0
  DerivesAleo pair s =
      (s ≡ pair.private_key)
      × (ahs (codes "derive-addr" ∷ pair.private_key ∷ []) ≡ ok pair.wallet_address)

  ethereum_key :
      (pair : KeyPair) (k : PrivateKey)
      → verulink.Signing.Ethereum.set_up_private_key crypto pair.private_key pair.wallet_address
        ≡ ok k
      → DerivesEthereum pair k
  unfolding verulink.Signing.Ethereum.set_up_private_key validate_key
  ethereum_key pair k e =
      let (key, read, rest) =
        bind_ok (hex_to_ecdsa (remove_first (codes "0x") pair.private_key)) _ k e in
      let (_, valid, last) = bind_ok (validate_key crypto key pair.wallet_address) _ k rest in
      let same : equal_fold (wallet_of key) pair.wallet_address ≡ true =
        if_ok _ _ _ (unfold validate_key in valid) in
      subst (λ j. DerivesEthereum pair j) (ok-injective last) (read, same)

  aleo_key :
      (pair : KeyPair) (s : Bytes)
      → verulink.Signing.Aleo.set_up_private_key tools pair.private_key pair.wallet_address ≡ ok s
      → DerivesAleo pair s
  unfolding verulink.Signing.Aleo.set_up_private_key validate_aleo_private_key
  aleo_key pair s e =
      let (_, valid, last) =
        bind_ok (validate_aleo_private_key tools pair.private_key pair.wallet_address) _ s e in
      let (addr, derived, same) =
        bind_ok (ahs (codes "derive-addr" ∷ pair.private_key ∷ [])) _ tt valid in
      let wallet : pair.wallet_address ≡ addr =
        (eqb_iff pair.wallet_address addr).0 (if_ok _ _ _ same) in
      (sym (ok-injective last), derived ∙ ap ok (sym wallet))

  -- A round sets one of the two keys, from an entry of that chain.
  pub set_up_key_cases :
      (name : Bytes) (o : Option KeyPair) (keys after : Keys PrivateKey)
      → set_up_key crypto tools name o keys ≡ ok after
      → ((pair : KeyPair) × (s : Bytes) × (name ≡ codes "aleo")
          × (o ≡ some pair)
          × DerivesAleo pair s
          × (after ≡ record keys { s_key = s }))
        ⊎ ((pair : KeyPair) × (k : PrivateKey) × (name ≡ codes "ethereum")
            × (o ≡ some pair)
            × DerivesEthereum pair k
            × (after ≡ record keys { p_key = some k }))
  unfolding set_up_key
  set_up_key_cases name o keys after e = elim (Bool-cases (eqb name (codes "aleo"))) [
    | inl aleo ↦
        let (pair, there, run) = bind_ok (or_panic o) _ after (rw aleo at e) in
        let (s, set, last) =
          bind_ok
            (verulink.Signing.Aleo.set_up_private_key tools pair.private_key pair.wallet_address) _
            after run in
        inl (
          pair,
          s,
          (eqb_iff name (codes "aleo")).0 aleo,
          or_panic-some o pair there,
          aleo_key pair s set,
          sym (ok-injective last),
        )
    | inr other ↦ elim (Bool-cases (eqb name (codes "ethereum"))) [
      | inr unknown ↦ let bad : err _ ≡ ok after = rw (other, unknown) at e in absurd (cc)
      | inl ethereum ↦
          let (pair, there, run) = bind_ok (or_panic o) _ after (rw (other, ethereum) at e) in
          let (k, set, last) =
            bind_ok
              (verulink.Signing.Ethereum.set_up_private_key crypto pair.private_key
                pair.wallet_address)
              _ after run in
          inr (
            pair,
            k,
            (eqb_iff name (codes "ethereum")).0 ethereum,
            or_panic-some o pair there,
            ethereum_key pair k set,
            sym (ok-injective last),
          )
    ]
  ]
