-- ===== src/Ethereum/Laws.antt =====
-- What the client does with heights, missed packets, gaps and retries.
use verulink.Base.{
  ℕ, ◌+◌, ◌%◌, ◌^◌, ◌<◌, ◌≤◌, ◌≡◌, ◌≢◌, ◌⊎◌, false, List, [], ◌∷◌, ◌++◌, Bytes, some, ok, arith,
  All, take, length, get_elem?,
}
use verulink.Chain.{Packet, MissedPacket, IsAmong}
use verulink.Chain.BigInt.{ℤ, eqb_ℤ_iff, big_string}
use verulink.Store.Bolt.{Bolt}
use verulink.Store.Json.{Codec, IsTextOf}
use verulink.Store.Ops.Laws.{Commits}
use verulink.Store.Retry.{reload, retrieve-store}
use verulink.Store.Db.{prune_base_seq_num}
use verulink.Store.BaseSeq.Encoding.{SeqHeight}
use verulink.Store.BaseSeq.Refinement.{IsBase}
use verulink.Store.BaseSeq.Gap.{gap}
use verulink.Store.BaseSeq.Prune.{prune_base_seq_num_range}
use verulink.Ethereum.Client.{
  Client, block_height_prior_wait_dur, find_missed, retry_packet_prefix, manage_retry, retry_round,
}
use verulink.Ethereum.Feed.{Filter, refetch, prune_round}

-- The matured height is `waitHeight` below the current block, or, where the chain is younger than
-- the wait, wraps to a height above every block of the chain.
pub matured_height :
    (cl : Client) (cur h : ℕ)
    → cur < 2 ^ 64
    → cl.wait_height < 2 ^ 64
    → block_height_prior_wait_dur cl (ok cur) ≡ ok h
    → ((cl.wait_height ≤ cur) × (h + cl.wait_height ≡ cur))
      ⊎ ((cur < cl.wait_height) × (h + cl.wait_height ≡ cur + 2 ^ 64) × (cur < h))
unfolding block_height_prior_wait_dur
matured_height cl cur h word wait e = ground arith

-- If a target chain was asked for, what `GetMissedPacket` finds is a packet of the block with the
-- number and the chain that were asked for.
pub find_missed_sound :
    (missed : MissedPacket) (target : ℤ) (pkts : List Packet) (p : Packet)
    → missed.target_chain_id ≡ some target
    → find_missed missed pkts ≡ ok p
    → IsAmong p pkts × (p.sequence ≡ missed.seq_num) × (p.destination.chain_id ≡ target)
unfolding find_missed
find_missed_sound missed target [] p t e = cc
find_missed_sound missed target (q ∷ pkts) p t e =
    ground (arith, find_missed_sound missed target pkts p, eqb_ℤ_iff q.destination.chain_id target)

-- What is fetched again is for the chain of the namespace and lies behind the start of the gap;
-- the packet at its end, which was delivered, is not among it.
pub refetch_in_gap :
    (dest : ℤ) (start_seq end_seq : ℕ) (pkts : List Packet)
    → All
        (λ p. (p.destination.chain_id ≡ dest) × (start_seq < p.sequence) × (p.sequence ≢ end_seq))
        (refetch dest start_seq end_seq pkts).0
unfolding refetch
refetch_in_gap dest s e [] = tt
refetch_in_gap dest s e (p ∷ pkts) =
    ground (arith, refetch_in_gap dest s e pkts, eqb_ℤ_iff p.destination.chain_id dest)

module _ (bolt : Bolt) (filter : Filter) (namespaces : List Bytes) (index : ℕ) (ns : Bytes)
    (db : bolt.Db) where
  -- Where the namespace at the index has numbers but no gap among its first thousand, a tick sends
  -- nothing and leaves the index: the next tick prunes the same namespace, and no other is
  -- reached.
  pub prune_round_stays :
      (p : SeqHeight) (l : List SeqHeight)
      → get_elem? namespaces index ≡ some ns
      → IsBase bolt db ns (p ∷ l)
      → (gap p (take 999 l)).1 ≡ false
      → (prune_round bolt filter namespaces index db).0 ≡ ok ([], index)
  unfolding prune_round
  prune_round_stays p l at base none_found =
      let e : (prune_base_seq_num bolt ns db).0 ≡ ok (gap p (take 999 l)) =
        prune_base_seq_num_range bolt ns db p l base in
      rw (prune_round, at, e, none_found)

module _ (bolt : Bolt) (codec : Codec) (namespaces : List Bytes) (index : ℕ) (db : bolt.Db)
    (pkt : Packet) (v : Bytes) where
  -- If commits succeed, a failed packet that `managePacket` has stored in its empty retry
  -- namespace is what the tick of `retryFeed` for that namespace sends again, and the index moves
  -- on.
  pub retry_round-manage_retry :
      Commits bolt
      → get_elem? namespaces index
        ≡ some (retry_packet_prefix ++ big_string pkt.destination.chain_id)
      → bolt.bucket db (retry_packet_prefix ++ big_string pkt.destination.chain_id) ≡ some []
      → IsTextOf codec pkt v
      → (retry_round bolt codec namespaces index (manage_retry bolt codec pkt db).1).0
        ≡ ok (reload codec pkt ∷ [], (index + 1) % length namespaces)
  unfolding retry_round manage_retry
  retry_round-manage_retry commits at here text =
      let (after, run, left) =
        retrieve-store codec bolt (retry_packet_prefix ++ big_string pkt.destination.chain_id) db
          pkt v commits here text 9 in
      rw (retry_round, at, run)
