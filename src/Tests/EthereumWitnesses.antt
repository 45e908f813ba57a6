-- ===== src/Tests/EthereumWitnesses.antt =====
-- The theorems of the ethereum client at concrete inputs.
use verulink.Base.{
  sym, ok-injective, ℕ, suc, ◌+◌, ◌-◌, ◌^◌, ◌<◌, ◌≤◌, ◌≡◌, ◌⊎◌, refl, false, List, [], ◌∷◌, ◌++◌,
  some, Bytes, codes, eqb, take, arith, ok,
}
use verulink.Chain.{Packet, MissedPacket, IsAmong}
use verulink.Chain.BigInt.{pos, big_string, itoa, emit, eqb_ℤ}
use verulink.Store.BaseSeq.Encoding.{SeqHeight}
use verulink.Store.BaseSeq.Gap.{gap}
use verulink.Store.Key.{put_uint64}
use verulink.Store.Key.BigEndian.{be, bytes_lt}
use verulink.Store.Bolt.Entries.{insert}
use verulink.Store.BaseSeq.Encoding.{encode_height}
use verulink.Store.BaseSeq.Refinement.{IsBase}
use verulink.Tests.Journal.{journal, Write}
use verulink.Tests.Data.{pkt}
use verulink.Tests.Stores.{ns, empty_at}
use verulink.Ethereum.Client.{find_missed, block_height_prior_wait_dur, Client}
use verulink.Ethereum.Feed.{Filter, feed_windows, feed_round, prune_round}
use verulink.Ethereum.Rounds.{IsInReach, IsSentFrom, feed_round-IsSentFrom}
use verulink.Ethereum.Coverage.{blocks, Covers, IsComplete, feed_windows-Covers}
use verulink.Store.Db.{SeqHeightRanges}
use verulink.Ethereum.Feed.{prune_windows}
use verulink.Ethereum.Fuel.{prune_windows_enough}
use verulink.Ethereum.Laws.{matured_height, find_missed_sound, prune_round_stays}

abbrev ethereum_retry_ns : Bytes
ethereum_retry_ns = codes "ethereum_rpns" ++ big_string (pos 1)

ethereum_empty_here : journal.bucket (empty_at ethereum_retry_ns) ethereum_retry_ns ≡ some []
unfolding eqb big_string itoa emit
ethereum_empty_here = refl

abbrev client : Client
client = record {
  name = codes "ethereum";
  address = [];
  dest_chains = codes "1" ∷ [];
  next_block_height = 1;
  chain_id = pos 3;
  filter_topic = [];
  wait_height = 10;
  feed_pkt_wait_dur = 0;
  retry_packet_wait_dur = 0;
  prune_base_seq_number_wait_dur = 0;
}

matured : block_height_prior_wait_dur client (ok 25) ≡ ok 15
unfolding block_height_prior_wait_dur
matured = refl

matured_height_example :
    ((10 ≤ 25) × (15 + 10 ≡ 25)) ⊎ ((25 < 10) × (15 + 10 ≡ 25 + 2 ^ 64) × (25 < 15))
matured_height_example = matured_height client 25 15 (omega arith) (omega arith) matured

abbrev missed : MissedPacket
missed = record {
  target_chain_id = some (pos 1);
  source_chain_id = some (pos 2);
  seq_num = 3;
  height = 30;
  txn_id = [];
}

found : find_missed missed (pkt ∷ []) ≡ ok pkt
unfolding find_missed eqb_ℤ
found = refl

find_missed_sound_example :
    IsAmong pkt (pkt ∷ []) × (pkt.sequence ≡ missed.seq_num) × (pkt.destination.chain_id ≡ pos 1)
find_missed_sound_example = find_missed_sound missed (pos 1) (pkt ∷ []) pkt refl found

-- One packet in every block.
abbrev emitted : ℕ → List Packet
emitted h = record pkt { height = h } ∷ []

abbrev node : Filter
node from last = ok (blocks emitted from (suc (last - from)))

node-IsComplete : IsComplete emitted node
node-IsComplete from n pkts e =
    let w : from + n - from ≡ n = omega arith in
    let same : ok (blocks emitted from (suc (from + n - from))) ≡ ok pkts = e in
    sym (rw w at (ok-injective same))

feed_windows-Covers_example :
    Covers
      (codes "1" ∷ [])
      node
      emitted
      node-IsComplete
      250
      1
      []
      (feed_windows (codes "1" ∷ []) node 4 250 1 1 [])
feed_windows-Covers_example =
    feed_windows-Covers (codes "1" ∷ []) node emitted node-IsComplete 4 250 1 [] (omega arith)
      (omega arith) (omega arith) (omega arith)

answered-IsInReach : (n : ℕ) → 20 < n → n < 300 → IsInReach 4 10 (ok n)
answered-IsInReach n lo hi cur e = let same : n ≡ cur = ok-injective e in omega arith

feed_round-IsSentFrom_example :
    IsSentFrom emitted (codes "1" ∷ []) 1 [] (feed_round 4 client node (ok 250 ∷ ok 251 ∷ []) [])
feed_round-IsSentFrom_example =
    feed_round-IsSentFrom node emitted node-IsComplete 4 client (ok 250 ∷ ok 251 ∷ []) [] (
      answered-IsInReach 250 (omega arith) (omega arith),
      (answered-IsInReach 251 (omega arith) (omega arith), tt),
    )

abbrev whole : List SeqHeight
whole = (1, 10) ∷ (2, 20) ∷ []

abbrev consecutive : List Write
consecutive =
    Write.stored ns (put_uint64 2) (encode_height 20)
    ∷ Write.stored ns (put_uint64 1) (encode_height 10)
    ∷ Write.created ns
    ∷ []

consecutive-IsBase : IsBase journal consecutive ns whole
unfolding eqb put_uint64 be bytes_lt insert encode_height
consecutive-IsBase = record { stored = refl; words = omega arith; ascending = omega arith }

no_gap : (gap (1, 10) (take 999 ((2, 20) ∷ []))).1 ≡ false
unfolding gap
no_gap = refl

prune_round_stays_example :
    (prune_round journal node (ns ∷ codes "other" ∷ []) 0 consecutive).0 ≡ ok ([], 0)
prune_round_stays_example =
    prune_round_stays journal node (ns ∷ codes "other" ∷ []) 0 ns consecutive (1, 10) ((2, 20) ∷ [])
      refl consecutive-IsBase no_gap

abbrev the_gap : SeqHeightRanges
the_gap = record { start_seq_num = 2; end_seq_num = 5; start_height = 20; end_height = 250 }

prune_windows_enough_example :
    prune_windows node (pos 1) the_gap 231 20 [] ≡ prune_windows node (pos 1) the_gap 1000 20 []
prune_windows_enough_example =
    prune_windows_enough node (pos 1) the_gap 231 1000 20 [] (omega arith) (omega arith)
      (omega arith)
