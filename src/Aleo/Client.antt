-- ===== src/Aleo/Client.antt =====
-- attestor/chainService/chain/aleo/client.go and rpc/rpc.go: the state of the client, what it asks
-- the node, and what it does with packets that come back. `get` is an HTTP request for a URL.
use verulink.Base.{
  ℕ, ◌+◌, ◌-◌, ◌*◌, ◌/◌, ◌%◌, ◌^◌, Bool, true, false, List, [], ◌∷◌, ◌++◌, map, Bytes, codes, none,
  some, Result, ok, err, panics, message, packet_not_found, or_err, ◌>>=◌, if◌then◌else◌, ltb, ◌==◌,
  length, get_elem?, eqb, lookup, split,
}
use verulink.Chain.{Packet, MissedPacket, nullable_string}
use verulink.Chain.BigInt.{ℤ, pos, negsuc, big_string, set_string}
use verulink.Config.{ChainConfig}
use verulink.Store.Bolt.{Bolt}
use verulink.Store.Json.{Codec}
use verulink.Store.Db.{
  store_retry_packet, store_base_seq_num, retrieve_and_delete_n_packets, create_namespaces,
}
use verulink.Aleo.Fields.{parse_message}
use verulink.Aleo.Parse.{construct_out_mapping_key, parse_aleo_packet}

abbrev second : ℕ
second = 1_000_000_000

abbrev or_default : ℕ → ℕ → ℕ
or_default value default = if value == 0 then default else value

abbrev pub base_seq_num_name_space_prefix : Bytes
base_seq_num_name_space_prefix = codes "aleo_bsns"

abbrev pub retry_packet_namespace_prefix : Bytes
retry_packet_namespace_prefix = codes "aleo_rpns"

pub record Client : Type 0 where
  pub name : Bytes
  pub program_id : Bytes
  pub query_url : Bytes
  pub network : Bytes
  pub chain_id : ℤ
  pub wait_height : ℕ
  pub dest_chains_id_map : List (Bytes × ℕ)
  pub validity_wait_dur : ℕ
  pub retry_packet_wait_dur : ℕ
  pub prune_base_seq_wait_dur : ℕ
  pub avg_block_gen_dur : ℕ

-- The two package variables that `NewClient` fills.
pub record Namespaces : Type 0 where
  pub base_seq : List Bytes
  pub retry_packet : List Bytes

-- An `int64` and its two's complement.
abbrev pub word_of : ℤ → ℕ
word_of (pos n) = n % 2 ^ 64
word_of (negsuc n) = 2 ^ 64 - 1 - n % 2 ^ 64

abbrev pub to_int64 : ℕ → ℤ
to_int64 n = let w = n % 2 ^ 64 in if ltb w (2 ^ 63) then pos w else negsuc (2 ^ 64 - 1 - w)

abbrev pub sub_int64 : ℤ → ℤ → ℤ
sub_int64 a b = to_int64 (word_of a + (2 ^ 64 - word_of b))

-- `ParseInt(s, 10, 64)`.
abbrev pub in_int64 : ℤ → Bool
in_int64 (pos n) = ltb n (2 ^ 63)
in_int64 (negsuc n) = ltb n (2 ^ 63)

unfoldable pub parse_int : Bytes → Result ℤ
parse_int s = do
  n ← or_err (set_string s) (message (codes "invalid syntax"))
  if in_int64 n then ok n else err (message (codes "value out of range"))

module _ (get : Bytes → Result Bytes) (cl : Client) where
  abbrev pub url : Bytes
  url = cl.query_url ++ codes "/" ++ cl.network

  unfoldable pub get_latest_height : Result ℤ
  unfolding parse_int
  get_latest_height = do ht ← get (url ++ codes "/latest/height"); parse_int ht

  unfoldable pub get_mapping_value : Bytes → Bytes → Bytes → Result Bytes
  get_mapping_value program_id mapping_name mapping_key = get (
      url
      ++ codes "/program/"
      ++ program_id
      ++ codes "/mapping/"
      ++ mapping_name
      ++ codes "/"
      ++ mapping_key)

  -- The matured height, where 0 stands for an error.
  unfoldable pub block_height_prior_wait_dur : ℤ
  unfolding get_latest_height
  block_height_prior_wait_dur = elim get_latest_height [
    | ok h ↦ sub_int64 h (pos cl.wait_height)
    | err e ↦ pos 0
    | panics ↦ pos 0
  ]

  unfoldable pub get_pkt_with_seq : (Bytes → Bytes) → Bytes → ℕ → Result Packet
  unfolding get_mapping_value
  get_pkt_with_seq bytes_to_address dst seq_num = do
    value ←
        get_mapping_value cl.program_id (codes "out_packets")
          (construct_out_mapping_key dst seq_num)
    found ←
        if eqb value (codes "null") then err (packet_not_found seq_num cl.name dst 0) else ok value
    aleo_pkt ← parse_message found
    parse_aleo_packet bytes_to_address aleo_pkt

  unfoldable pub get_missed_packet : (Bytes → Bytes) → MissedPacket → Result Packet
  get_missed_packet bytes_to_address missed =
      get_pkt_with_seq bytes_to_address (nullable_string missed.target_chain_id) missed.seq_num

-- An entry of the map for each destination that has none.
abbrev pub with_dest_chains : List Bytes → List (Bytes × ℕ) → List (Bytes × ℕ)
with_dest_chains [] m = m
with_dest_chains (d ∷ ds) m = elim (lookup d m) [
  | none ↦ with_dest_chains ds (m ++ (d, 1) ∷ [])
  | some n ↦ with_dest_chains ds m
]

unfoldable pub namespaces_of : List Bytes → List Bytes
namespaces_of [] = []
namespaces_of (dest ∷ dests) =
    (retry_packet_namespace_prefix ++ dest)
    ∷ (base_seq_num_name_space_prefix ++ dest)
    ∷ namespaces_of dests

module _ (bolt : Bolt) where
  open bolt use {Db}

  -- `NewClient`, once the node's URL is split. A failure to create the namespaces is a panic.
  abbrev pub client_at :
      ChainConfig → List Bytes → Namespaces → Result (Unit {0}) → Result (Client × Namespaces)
  client_at cfg (query_url ∷ network ∷ []) vars (ok u) =
      let validity = or_default cfg.packet_validity_wait_duration (24 * 3600 * second) in
      let avg = or_default cfg.average_block_gen_dur second in
      ok (
        record {
          name = if eqb cfg.name [] then codes "aleo" else cfg.name;
          program_id = cfg.bridge_contract;
          query_url = query_url;
          network = network;
          chain_id = cfg.chain_id;
          wait_height =
              if ltb (validity / avg) cfg.finality_height
              then cfg.finality_height
              else validity / avg;
          dest_chains_id_map = with_dest_chains cfg.dest_chains cfg.start_seq_num;
          validity_wait_dur = validity;
          retry_packet_wait_dur = or_default cfg.retry_packet_wait_dur (3600 * second);
          prune_base_seq_wait_dur = or_default cfg.prune_base_seq_number_wait_dur (3600 * second);
          avg_block_gen_dur = avg;
        },
        record {
          base_seq =
              vars.base_seq ++ map (λ d. base_seq_num_name_space_prefix ++ d) cfg.dest_chains;
          retry_packet =
              vars.retry_packet ++ map (λ d. retry_packet_namespace_prefix ++ d) cfg.dest_chains;
        },
      )
  client_at cfg urls vars created = panics

  unfoldable pub new_client : ChainConfig → Namespaces → Db → Result (Client × Namespaces) × Db
  unfolding namespaces_of
  new_client cfg vars db = elim (length (split b'|' cfg.node_url) == 2) [
    | false ↦ (panics, db)
    | true ↦
        let (created, after) = create_namespaces bolt (namespaces_of cfg.dest_chains) db in
        (client_at cfg (split b'|' cfg.node_url) vars created, after)
  ]

-- Where the index stands when a tick begins.
abbrev pub wrapped : List Bytes → ℕ → ℕ
wrapped namespaces index = if index == length namespaces then 0 else index

module _ (bolt : Bolt) (codec : Codec) where
  open bolt use {Db}

  -- The two cases of `managePacket`; heights are not kept. An error of the store is only logged.
  unfoldable pub manage_retry : Packet → Db → Result (Unit {0}) × Db
  manage_retry pkt db =
      store_retry_packet bolt codec
        (retry_packet_namespace_prefix ++ big_string pkt.destination.chain_id) pkt db

  unfoldable pub manage_completed : Packet → Db → Result (Unit {0}) × Db
  manage_completed pkt db =
      store_base_seq_num bolt
        (base_seq_num_name_space_prefix ++ big_string pkt.destination.chain_id) pkt.sequence 0 db

  abbrev pub sent_or_none : Result (List Packet) → Result (List Packet)
  sent_or_none (ok pkts) = ok pkts
  sent_or_none (err e) = ok []
  sent_or_none panics = panics

  -- One tick of `retryFeed`: what is sent to the channel, the next index, and the store.
  unfoldable pub retry_round : List Bytes → ℕ → Db → Result (List Packet × ℕ) × Db
  retry_round namespaces index db = elim (get_elem? namespaces (wrapped namespaces index)) [
    | none ↦ (panics, db)
    | some ns ↦
        let (pkts, after) = retrieve_and_delete_n_packets bolt codec ns 10 db in
        ((do sent ← sent_or_none pkts; ok (sent, wrapped namespaces index + 1)), after)
  ]
