-- ===== src/Ethereum/Client.antt =====
-- The state of the client, its configuration, and what it does with packets that come back.
use verulink.Base.{
  ℕ, ◌+◌, ◌-◌, ◌*◌, ◌/◌, ◌%◌, ◌^◌, Bool, true, false, List, [], ◌∷◌, ◌++◌, map, Bytes, codes, none,
  some, Result, ok, err, panics, message, or_panic, ◌>>=◌, if◌then◌else◌, ltb, ◌==◌, length,
  get_elem?, eqb,
}
use verulink.Chain.{Packet, MissedPacket}
use verulink.Chain.BigInt.{ℤ, big_string, eqb_ℤ}
use verulink.Config.{ChainConfig}
use verulink.Store.Bolt.{Bolt}
use verulink.Store.Json.{Codec}
use verulink.Store.Db.{
  store_retry_packet, store_base_seq_num, retrieve_and_delete_n_packets, create_namespaces,
}

-- Durations are in nanoseconds, as `time.Duration` is.
abbrev pub second : ℕ
second = 1_000_000_000

abbrev pub avg_block_gen_dur : ℕ
avg_block_gen_dur = 12 * second

abbrev pub default_height_difference : ℕ
default_height_difference = 100

abbrev pub default_validity_wait_dur : ℕ
default_validity_wait_dur = 24 * 3600 * second

abbrev pub default_feed_pkt_wait_dur : ℕ
default_feed_pkt_wait_dur = default_height_difference * avg_block_gen_dur * 2 / 3

abbrev pub default_retry_packet_wait_dur : ℕ
default_retry_packet_wait_dur = 12 * 3600 * second

abbrev pub default_prune_base_seq_wait_dur : ℕ
default_prune_base_seq_wait_dur = 6 * 3600 * second

abbrev pub retrieve_packet_num : ℕ
retrieve_packet_num = 10

abbrev pub base_seq_num_prefix : Bytes
base_seq_num_prefix = codes "ethereum_bsns"

abbrev pub retry_packet_prefix : Bytes
retry_packet_prefix = codes "ethereum_rpns"

pub record Client : Type 0 where
  pub name : Bytes
  pub address : Bytes
  pub dest_chains : List Bytes
  pub next_block_height : ℕ
  pub chain_id : ℤ
  pub filter_topic : Bytes
  pub wait_height : ℕ
  pub feed_pkt_wait_dur : ℕ
  pub retry_packet_wait_dur : ℕ
  pub prune_base_seq_number_wait_dur : ℕ

-- The two package variables that `NewClient` fills.
pub record Namespaces : Type 0 where
  pub base_seq : List Bytes
  pub retry_packet : List Bytes

-- `m[k]` of the set of destination chains.
unfoldable pub supports : List Bytes → Bytes → Bool
supports [] dest = false
supports (d ∷ ds) dest = let rest = supports ds dest in if eqb d dest then true else rest

abbrev pub or_default : ℕ → ℕ → ℕ
or_default value default = if value == 0 then default else value

abbrev pub at_least : ℕ → ℕ → ℕ
at_least value bound = if ltb value bound then bound else value

abbrev pub named : Bytes → Bytes → Bytes
named [] default = default
named (c ∷ name) default = c ∷ name

unfoldable pub namespaces_of : List Bytes → List Bytes
namespaces_of [] = []
namespaces_of (dest ∷ dests) =
    (retry_packet_prefix ++ dest) ∷ (base_seq_num_prefix ++ dest) ∷ namespaces_of dests

-- The matured height. In uint64, the difference wraps where the chain is younger than the wait.
unfoldable pub block_height_prior_wait_dur : Client → Result ℕ → Result ℕ
block_height_prior_wait_dur cl current_block = do
  cur_height ← current_block
  ok ((cur_height + 2 ^ 64 - cl.wait_height) % 2 ^ 64)

-- What `FeedPacket` starts from: the lowest of the heights that are stored for the destinations.
unfoldable pub base_height : List ℕ → ℕ → ℕ
base_height [] lowest = lowest
base_height (start ∷ starts) lowest =
    base_height starts (if ltb start lowest then start else lowest)

unfoldable pub with_start_height : Client → List ℕ → Client
unfolding base_height
with_start_height cl starts = record cl {
  next_block_height = at_least cl.next_block_height (base_height starts (2 ^ 64 - 1));
}

-- `GetMissedPacket`, from the packets of the height. `Cmp` with a nil id panics.
unfoldable pub find_missed : MissedPacket → List Packet → Result Packet
find_missed missed [] = err (message (codes "packet not found"))
find_missed missed (pkt ∷ pkts) =
    let rest = find_missed missed pkts in
    let same_chain = (do
      target ← or_panic missed.target_chain_id
      if eqb_ℤ pkt.destination.chain_id target then ok pkt else rest) in
    if pkt.sequence == missed.seq_num then same_chain else rest

unfoldable pub get_missed_packet : (ℕ → ℕ → Result (List Packet)) → MissedPacket → Result Packet
unfolding find_missed
get_missed_packet filter_packet_logs missed = do
  pkts ← filter_packet_logs missed.height missed.height
  find_missed missed pkts

module _ (bolt : Bolt) (codec : Codec) where
  open bolt use {Db}

  -- The two cases of `managePacket`; an error of the store is only logged.
  unfoldable pub manage_retry : Packet → Db → Result (Unit {0}) × Db
  manage_retry pkt db =
      store_retry_packet bolt codec (retry_packet_prefix ++ big_string pkt.destination.chain_id) pkt
        db

  unfoldable pub manage_completed : Packet → Db → Result (Unit {0}) × Db
  manage_completed pkt db =
      store_base_seq_num bolt (base_seq_num_prefix ++ big_string pkt.destination.chain_id)
        pkt.sequence pkt.height db

  abbrev pub sent_or_none : Result (List Packet) → Result (List Packet)
  sent_or_none (ok pkts) = ok pkts
  sent_or_none (err e) = ok []
  sent_or_none panics = panics

  -- One tick of `retryFeed`: what is sent to the channel, the next index, and the store.
  unfoldable pub retry_round : List Bytes → ℕ → Db → Result (List Packet × ℕ) × Db
  retry_round namespaces index db = elim (get_elem? namespaces index) [
    | none ↦ (panics, db)
    | some ns ↦
        let (pkts, after) = retrieve_and_delete_n_packets bolt codec ns retrieve_packet_num db in
        ((do sent ← sent_or_none pkts; ok (sent, (index + 1) % length namespaces)), after)
  ]

  abbrev pub panic_on_error : Result (Unit {0}) → Result (Unit {0})
  panic_on_error (ok u) = ok tt
  panic_on_error (err e) = panics
  panic_on_error panics = panics

  -- `NewClient`: the client, the variables, and the store with its namespaces. The connection to
  -- the node is not modelled.
  unfoldable pub new_client : ChainConfig → Namespaces → Db → Result (Client × Namespaces) × Db
  unfolding namespaces_of
  new_client cfg vars db =
      let (created, after) = create_namespaces bolt (namespaces_of cfg.dest_chains) db in
      (
        (do
          done ← panic_on_error created
          ok (
            record {
              name = named cfg.name (codes "ethereum");
              address = cfg.bridge_contract;
              dest_chains = cfg.dest_chains;
              next_block_height = cfg.start_height;
              chain_id = cfg.chain_id;
              filter_topic = cfg.filter_topic;
              wait_height =
                  at_least
                    (or_default cfg.packet_validity_wait_duration default_validity_wait_dur
                      / avg_block_gen_dur)
                    cfg.finality_height;
              feed_pkt_wait_dur =
                  or_default cfg.feed_packet_wait_duration default_feed_pkt_wait_dur;
              retry_packet_wait_dur =
                  or_default cfg.retry_packet_wait_dur default_retry_packet_wait_dur;
              prune_base_seq_number_wait_dur =
                  or_default cfg.prune_base_seq_number_wait_dur default_prune_base_seq_wait_dur;
            },
            record {
              base_seq = vars.base_seq ++ map (λ d. base_seq_num_prefix ++ d) cfg.dest_chains;
              retry_packet =
                  vars.retry_packet ++ map (λ d. retry_packet_prefix ++ d) cfg.dest_chains;
            },
          )),
        after,
      )
