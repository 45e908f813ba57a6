-- ===== src/Config/Laws.antt =====
-- What the configuration is, once it is validated.
use mathlib.Core.Path.{subst}
use verulink.Base.{
  bind_ok, bind_or_err, ok-injective, ◌≡◌, ◌⊎◌, inl, inr, refl, List, [], ◌∷◌, Bytes, eqb, lookup,
  some, ok, All, Bool-cases,
}
use verulink.Chain.BigInt.{big_string}
use verulink.Config.{
  ChainConfig, chain_name_to_chain_id, dest_chain_ids, start_seq_nums, validate_chains,
  validate_chain_config,
}

-- The decimal chain id of one of the chains.
abbrev pub IsChainId : List ChainConfig → Bytes → Type 0
IsChainId [] id = ⊥
IsChainId (c ∷ cs) id = (id ≡ big_string c.chain_id) ⊎ IsChainId cs id

abbrev KnowsOnly : (Bytes → Type 0) → List (Bytes × Bytes) → Type 0
KnowsOnly P m = All (λ (p : Bytes × Bytes). P p.1) m

some_same : (v w : Bytes) → some v ≡ some w → v ≡ w
some_same v w e = cc

lookup-KnowsOnly :
    (P : Bytes → Type 0) (m : List (Bytes × Bytes)) (name id : Bytes)
    → KnowsOnly P m
    → lookup name m ≡ some id
    → P id
unfolding lookup
lookup-KnowsOnly P [] name id known e = cc
lookup-KnowsOnly P ((j, v) ∷ m) name id known e = elim (Bool-cases (eqb j name)) [
  | inl here ↦ let same : v ≡ id = some_same v id (rw here at e) in subst P same known.0
  | inr there ↦ lookup-KnowsOnly P m name id known.1 (rw there at e)
]

chain_name_to_chain_id-KnowsOnly :
    (P : Bytes → Type 0) (cs : List ChainConfig) (m : List (Bytes × Bytes))
    → All (λ (c : ChainConfig). P (big_string c.chain_id)) cs
    → KnowsOnly P m
    → KnowsOnly P (chain_name_to_chain_id cs m)
unfolding chain_name_to_chain_id
chain_name_to_chain_id-KnowsOnly P [] m ids known = known
chain_name_to_chain_id-KnowsOnly P (c ∷ cs) m ids known =
    chain_name_to_chain_id-KnowsOnly P cs ((c.name, big_string c.chain_id) ∷ m) ids.1 (ids.0, known)

IsChainId-later :
    (cs : List ChainConfig) (c : ChainConfig) (ds : List ChainConfig)
    → All (λ (d : ChainConfig). IsChainId cs (big_string d.chain_id)) ds
    → All (λ (d : ChainConfig). IsChainId (c ∷ cs) (big_string d.chain_id)) ds
IsChainId-later cs c [] h = tt
IsChainId-later cs c (d ∷ ds) h = (inr h.0, IsChainId-later cs c ds h.1)

All-IsChainId :
    (cs : List ChainConfig) → All (λ (c : ChainConfig). IsChainId cs (big_string c.chain_id)) cs
All-IsChainId [] = tt
All-IsChainId (c ∷ cs) = (inl refl, IsChainId-later cs c cs (All-IsChainId cs))

module _ (P : Bytes → Type 0) (m : List (Bytes × Bytes)) (known : KnowsOnly P m) where
  dest_chain_ids-All : (names ids : List Bytes) → dest_chain_ids m names ≡ ok ids → All P ids
  unfolding dest_chain_ids
  dest_chain_ids-All [] ids e = subst (All P) (ok-injective e) tt
  dest_chain_ids-All (name ∷ names) ids e =
      let (id, found, more) = bind_or_err (lookup name m) _ _ ids e in
      let (later, run, done) = bind_ok (dest_chain_ids m names) _ ids more in
      subst (All P) (ok-injective done)
        (lookup-KnowsOnly P m name id known found, dest_chain_ids-All names later run)

  validate_chains-All :
      (cs out : List ChainConfig)
      → validate_chains m cs ≡ ok out
      → All (λ (c : ChainConfig). All P c.dest_chains) out
  unfolding validate_chains
  validate_chains-All [] out e =
      subst (All (λ (c : ChainConfig). All P c.dest_chains)) (ok-injective e) tt
  validate_chains-All (c ∷ cs) out e =
      let (dests, first, e1) = bind_ok (dest_chain_ids m c.dest_chains) _ out e in
      let (starts, second, e2) = bind_ok (start_seq_nums m c.start_seq_num []) _ out e1 in
      let (rest, third, e3) = bind_ok (validate_chains m cs) _ out e2 in
      subst (All (λ (c : ChainConfig). All P c.dest_chains)) (ok-injective e3)
        (dest_chain_ids-All c.dest_chains dests first, validate_chains-All cs rest third)

-- If the validation succeeds, every destination of every chain is the decimal id of one of the
-- chains that were configured.
pub validate_chain_config_dests :
    (cs out : List ChainConfig)
    → validate_chain_config cs ≡ ok out
    → All (λ (c : ChainConfig). All (IsChainId cs) c.dest_chains) out
unfolding validate_chain_config
validate_chain_config_dests cs out e =
    validate_chains-All (IsChainId cs) (chain_name_to_chain_id cs [])
      (chain_name_to_chain_id-KnowsOnly (IsChainId cs) cs [] (All-IsChainId cs) tt) cs out e
