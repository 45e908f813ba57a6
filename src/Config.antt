-- ===== src/Config.antt =====
-- attestor/chainService/config/config.go: the configuration and its validation.
pub mod Laws
pub mod Init
pub mod InitLaws
use verulink.Base.{
  ℕ, Bool, true, false, List, [], ◌∷◌, ◌++◌, Bytes, codes, eqb, lookup, Option, none, some, Result,
  ok, err, panics, Error, message, or_err, ◌>>=◌, if◌then◌else◌, ◌==◌, ◌||◌, not, ◌&&◌,
}
use verulink.Chain.BigInt.{ℤ, big_string}

-- Durations are in nanoseconds. A map is the list of its pairs. A chain id is a pointer in the source;
-- a configuration without one is not represented.
pub record ChainConfig : Type 0 where
  pub name : Bytes
  pub chain_id : ℤ
  pub bridge_contract : Bytes
  pub node_url : Bytes
  pub packet_validity_wait_duration : ℕ
  pub feed_packet_wait_duration : ℕ
  pub finality_height : ℕ
  pub wallet_path : Bytes
  pub dest_chains : List Bytes
  pub wallet_address : Bytes
  pub start_seq_num : List (Bytes × ℕ)
  pub start_height : ℕ
  pub filter_topic : Bytes
  pub retry_packet_wait_dur : ℕ
  pub prune_base_seq_number_wait_dur : ℕ
  pub average_block_gen_dur : ℕ

-- `chainNameToChainID`: a later chain of the same name replaces an earlier one.
unfoldable pub chain_name_to_chain_id :
    List ChainConfig → List (Bytes × Bytes) → List (Bytes × Bytes)
chain_name_to_chain_id [] m = m
chain_name_to_chain_id (c ∷ cs) m = chain_name_to_chain_id cs ((c.name, big_string c.chain_id) ∷ m)

abbrev not_available : Bytes → Error
not_available name = message (codes "chain-id not available for " ++ name)

unfoldable pub dest_chain_ids : List (Bytes × Bytes) → List Bytes → Result (List Bytes)
dest_chain_ids m [] = ok []
dest_chain_ids m (name ∷ names) = do
  id ← or_err (lookup name m) (not_available name)
  ids ← dest_chain_ids m names
  ok (id ∷ ids)

-- `m[k] = v` on the list of pairs.
abbrev set_pair : Bytes → ℕ → List (Bytes × ℕ) → List (Bytes × ℕ)
set_pair k v [] = (k, v) ∷ []
set_pair k v ((j, w) ∷ m) =
    let rest = set_pair k v m in if eqb j k then (k, v) ∷ m else (j, w) ∷ rest

unfoldable pub start_seq_nums :
    List (Bytes × Bytes) → List (Bytes × ℕ) → List (Bytes × ℕ) → Result (List (Bytes × ℕ))
start_seq_nums m [] done = ok done
start_seq_nums m ((name, start) ∷ names) done = do
  id ← or_err (lookup name m) (not_available name)
  start_seq_nums m names (set_pair id start done)

-- The loop of `validateChainConfig`, which replaces the names by chain ids.
unfoldable pub validate_chains : List (Bytes × Bytes) → List ChainConfig → Result (List ChainConfig)
unfolding dest_chain_ids start_seq_nums
validate_chains m [] = ok []
validate_chains m (c ∷ cs) = do
  dests ← dest_chain_ids m c.dest_chains
  starts ← start_seq_nums m c.start_seq_num []
  rest ← validate_chains m cs
  ok (record c { dest_chains = dests; start_seq_num = starts } ∷ rest)

unfoldable pub validate_chain_config : List ChainConfig → Result (List ChainConfig)
unfolding chain_name_to_chain_id validate_chains
validate_chain_config cs = validate_chains (chain_name_to_chain_id cs []) cs
