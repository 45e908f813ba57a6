-- ===== src/Ethereum/Feed.antt =====
-- The loops of `FeedPacket` and `pruneBaseSeqNum` over windows of block heights. The fuel of a loop
-- bounds its rounds; `filter` is `filterPacketLogs`.
use verulink.Base.{
  ℕ, zero, suc, ◌+◌, ◌-◌, ◌%◌, ◌^◌, Bool, true, false, List, [], ◌∷◌, ◌++◌, Bytes, remove_all, none,
  some, Result, ok, err, panics, if◌then◌else◌, ltb, leb, ◌==◌, ◌>>=◌, get_elem?, length, select,
  not,
}
use verulink.Chain.{Packet}
use verulink.Chain.BigInt.{ℤ, pos, big_string, set_string, eqb_ℤ}
use verulink.Store.Bolt.{Bolt}
use verulink.Store.Db.{SeqHeightRanges, prune_base_seq_num}
use verulink.Ethereum.Client.{
  Client, supports, default_height_difference, block_height_prior_wait_dur, base_seq_num_prefix,
}

abbrev pub Filter : Type 0
Filter = ℕ → ℕ → Result (List Packet)

-- Where a pass stands: `cl.nextBlockHeight`, what was sent to the channel, and how it has ended.
pub data Ending : Type 0 where
  finished failed crashed out_of_fuel : Ending

pub record Pass : Type 0 where
  pub next_block_height : ℕ
  pub sent : List Packet
  pub ending : Ending

abbrev pub add_word : ℕ → ℕ → ℕ
add_word a b = (a + b) % 2 ^ 64

abbrev pub window_end : ℕ → ℕ → ℕ
window_end start last =
    let e = add_word start default_height_difference in if ltb last e then last else e

abbrev pub supported : List Bytes → List Packet → List Packet
supported dests = select (λ pkt. supports dests (big_string pkt.destination.chain_id))

module _ (dests : List Bytes) (filter : Filter) where
  -- `for startHeight := cl.nextBlockHeight; startHeight <= maturedHeight; startHeight += 101`.
  unfoldable pub feed_windows : ℕ → ℕ → ℕ → ℕ → List Packet → Pass
  feed_windows zero matured start next sent = record {
    next_block_height = next;
    sent = sent;
    ending = out_of_fuel;
  }
  feed_windows (suc fuel) matured start next sent = elim (leb start matured) [
    | false ↦ record { next_block_height = next; sent = sent; ending = finished }
    | true ↦ elim (filter start (window_end start matured)) [
      | ok pkts ↦
          feed_windows fuel matured (add_word start (default_height_difference + 1))
            (add_word (window_end start matured) 1) (sent ++ supported dests pkts)
      | err e ↦ record { next_block_height = next; sent = sent; ending = failed }
      | panics ↦ record { next_block_height = next; sent = sent; ending = crashed }
    ]
  ]

-- After its windows the loop `L1` goes on, unless one has failed.
abbrev pub after_windows : Pass → (ℕ → List Packet → Pass) → Pass
after_windows p go_on = elim p.ending [
  | finished ↦ go_on p.next_block_height p.sent
  | failed ↦ p
  | crashed ↦ p
  | out_of_fuel ↦ p
]

-- One tick of `FeedPacket`: the loop `L1` over what the node answers as its current block, one
-- answer for each time that it is asked. The pass ends when the client has caught up, or fails.
unfoldable pub feed_round : ℕ → Client → Filter → List (Result ℕ) → List Packet → Pass
unfolding feed_windows
feed_round fuel cl filter [] sent = record {
  next_block_height = cl.next_block_height;
  sent = sent;
  ending = out_of_fuel;
}
feed_round fuel cl filter (answer ∷ answers) sent = elim (block_height_prior_wait_dur cl answer) [
  | err e ↦ record { next_block_height = cl.next_block_height; sent = sent; ending = failed }
  | panics ↦ record { next_block_height = cl.next_block_height; sent = sent; ending = crashed }
  | ok matured ↦ elim (ltb matured cl.next_block_height) [
    | true ↦ record { next_block_height = cl.next_block_height; sent = sent; ending = finished }
    | false ↦
        after_windows
          (feed_windows cl.dest_chains filter fuel matured cl.next_block_height cl.next_block_height
            sent)
          (λ next more.
            feed_round fuel (record cl { next_block_height = next }) filter answers more)
  ]
]

-- The chain of a namespace. (Go leaves the number undefined where the text is no decimal.)
unfoldable pub chain_of_namespace : Bytes → ℤ
chain_of_namespace ns = elim (set_string (remove_all base_seq_num_prefix 0 ns)) [
  | none ↦ pos 0
  | some id ↦ id
]

-- The loop over the packets of a window: what is sent, and whether `break L1` was reached.
unfoldable pub refetch : ℤ → ℕ → ℕ → List Packet → List Packet × Bool
refetch dest start_seq end_seq [] = ([], false)
refetch dest start_seq end_seq (pkt ∷ pkts) =
    let (sent, stop) = refetch dest start_seq end_seq pkts in
    if not (eqb_ℤ pkt.destination.chain_id dest)
    then (sent, stop)
    else if leb pkt.sequence start_seq
    then (sent, stop)
    else if pkt.sequence == end_seq
    then ([], true)
    else (pkt ∷ sent, stop)

module _ (filter : Filter) (dest : ℤ) (r : SeqHeightRanges) where
  -- `for s := startHeight; s <= endHeight; s += 101`: the packets that are sent.
  unfoldable pub prune_windows : ℕ → ℕ → List Packet → Result (List Packet)
  unfolding refetch
  prune_windows zero s sent = ok sent
  prune_windows (suc fuel) s sent = elim (leb s r.end_height) [
    | false ↦ ok sent
    | true ↦ elim (filter s (window_end s r.end_height)) [
      | err e ↦ ok sent
      | panics ↦ panics
      | ok pkts ↦
          let (more, stop) = refetch dest r.start_seq_num r.end_seq_num pkts in
          elim stop [
            | true ↦ ok (sent ++ more)
            | false ↦ prune_windows fuel (add_word s (default_height_difference + 1)) (sent ++ more)
          ]
    ]
  ]

module _ (bolt : Bolt) where
  open bolt use {Db}

  -- One tick of `pruneBaseSeqNum`: what is sent, the next index, and the store.
  unfoldable pub prune_round : Filter → List Bytes → ℕ → Db → Result (List Packet × ℕ) × Db
  unfolding prune_windows chain_of_namespace
  prune_round filter namespaces index db = elim (get_elem? namespaces index) [
    | none ↦ (panics, db)
    | some ns ↦
        let (ranges, after) = prune_base_seq_num bolt ns db in
        (
          (do
            (r, should_fetch) ← ranges
            elim should_fetch [
              | false ↦ ok ([], index)
              | true ↦ (do
                sent ←
                    prune_windows filter (chain_of_namespace ns) r
                      (suc (r.end_height - r.start_height)) r.start_height []
                ok (sent, (index + 1) % length namespaces))
            ]),
          after,
        )
  ]
