-- ===== src/Aleo/Feed.antt =====
-- attestor/chainService/chain/aleo/client.go: the loop of `feedPacket` and a tick of
-- `pruneBaseSeqNum`. What the node answers is a list, one answer for each time that it is asked;
-- the answer to a request for a packet is a function of the number that is asked for.
use verulink.Base.{
  ℕ, zero, suc, ◌+◌, ◌-◌, ◌*◌, ◌%◌, ◌^◌, Bool, true, false, List, [], ◌∷◌, ◌++◌, Bytes, none, some,
  Result, ok, err, panics, Error, time_out, invalid_signature, already_relayed, packet_not_found,
  message, joined, ◌>>=◌, if◌then◌else◌, ltb, ◌==◌, get_elem?, remove_first,
}
use verulink.Chain.{Packet}
use verulink.Chain.BigInt.{ℤ, pos, negsuc, eqb_ℤ}
use verulink.Store.Bolt.{Bolt}
use verulink.Store.Db.{get_starting_seq_num_and_height, prune_base_seq_num}
use verulink.Aleo.Client.{
  Client, base_seq_num_name_space_prefix, word_of, to_int64, sub_int64, wrapped,
}

abbrev pub Ask : Type 0
Ask = ℕ → Result Packet

-- The variables of `feedPacket`, and what it has sent.
pub record FeedState : Type 0 where
  pub next_seq_num : ℕ
  pub available_in_height : ℤ
  pub sent : List Packet

-- `errors.Is(err, common.ErrPacketNotFound{})`.
abbrev pub is_packet_not_found : Error → Bool
is_packet_not_found time_out = false
is_packet_not_found (invalid_signature h s) = false
is_packet_not_found already_relayed = false
is_packet_not_found (packet_not_found n s d h) = true
is_packet_not_found (message e) = false
is_packet_not_found (joined es) = false

abbrev pub gtb_ℤ : ℤ → ℤ → Bool
gtb_ℤ (pos a) (pos b) = ltb b a
gtb_ℤ (pos a) (negsuc b) = true
gtb_ℤ (negsuc a) (pos b) = false
gtb_ℤ (negsuc a) (negsuc b) = ltb a b

-- What a packet does: it is sent where it is matured, and else waited for.
abbrev pub receive : ℤ → Packet → FeedState → (FeedState → FeedState) → FeedState
receive matured pkt st go_on = elim (gtb_ℤ (to_int64 pkt.height) matured) [
  | true ↦ record st { available_in_height = to_int64 pkt.height }
  | false ↦
      go_on
        (record st { next_seq_num = (st.next_seq_num + 1) % 2 ^ 64; sent = st.sent ++ pkt ∷ [] })
]

-- The inner loop. Where a packet can not be read, its number is asked for again.
unfoldable pub pull : List Ask → ℤ → FeedState → FeedState
pull [] matured st = st
pull (ask ∷ asks) matured st = elim (ask st.next_seq_num) [
  | ok pkt ↦ receive matured pkt st (λ after. pull asks matured after)
  | err e ↦ elim (is_packet_not_found e) [
    | true ↦ record st { available_in_height = pos 0 }
    | false ↦ pull asks matured st
  ]
  | panics ↦ st
]

-- The time for which the outer loop sleeps, in nanoseconds.
unfoldable pub sleep_dur : Client → ℤ → ℤ → ℤ
sleep_dur cl available cur_matured_height =
    if eqb_ℤ available (pos 0)
    then pos cl.validity_wait_dur
    else if gtb_ℤ available cur_matured_height
    then to_int64 (word_of (sub_int64 available cur_matured_height) * cl.avg_block_gen_dur)
    else pos 0

-- One round of the outer loop: the matured height before and after the sleep, and the answers.
pub record Round : Type 0 where
  pub before_sleep : ℤ
  pub after_sleep : ℤ
  pub asks : List Ask

unfoldable pub feed_round : Round → FeedState → FeedState
unfolding pull
feed_round r st =
    if eqb_ℤ r.before_sleep (pos 0)
    then st
    else if eqb_ℤ r.after_sleep (pos 0)
    then st
    else pull r.asks r.after_sleep st

unfoldable pub feed_rounds : List Round → FeedState → FeedState
unfolding feed_round
feed_rounds [] st = st
feed_rounds (r ∷ rounds) st = feed_rounds rounds (feed_round r st)

abbrev pub first_seq_num : ℕ → ℕ → ℕ
first_seq_num next_seq_num start_seq_num =
    let from = if ltb next_seq_num start_seq_num then start_seq_num else next_seq_num in
    if from == 0 then 1 else from

-- The loop over the numbers of the gap: a packet that can not be read is left out, and a panic
-- ends the loop, which recovers from nothing.
unfoldable pub fetch_gap : Ask → ℕ → ℕ → Result (List Packet)
fetch_gap ask i zero = ok []
fetch_gap ask i (suc n) = elim (ask i) [
  | ok pkt ↦ do rest ← fetch_gap ask (i + 1) n; ok (pkt ∷ rest)
  | err e ↦ fetch_gap ask (i + 1) n
  | panics ↦ panics
]

module _ (bolt : Bolt) where
  open bolt use {Db}

  -- `feedPacket` over so many rounds of its loop.
  unfoldable pub feed_packet : Bytes → ℕ → Db → List Round → Result FeedState
  unfolding feed_rounds
  feed_packet chain_id next_seq_num db rounds = do
    (start_seq_num, height) ←
        get_starting_seq_num_and_height bolt (base_seq_num_name_space_prefix ++ chain_id) db
    ok (
        feed_rounds rounds (record {
          next_seq_num = first_seq_num next_seq_num start_seq_num;
          available_in_height = pos 1;
          sent = [];
        }))

  -- One tick of `pruneBaseSeqNum`: what is sent, the next index, and the store. The node is asked
  -- for packets of the chain that the namespace names.
  unfoldable pub prune_round : (Bytes → Ask) → List Bytes → ℕ → Db → Result (List Packet × ℕ) × Db
  unfolding fetch_gap
  prune_round ask_chain namespaces index db =
      elim (get_elem? namespaces (wrapped namespaces index)) [
        | none ↦ (panics, db)
        | some ns ↦
            let (ranges, after) = prune_base_seq_num bolt ns db in
            (
              (do
                (r, should_fetch) ← ranges
                elim should_fetch [
                  | false ↦ ok ([], wrapped namespaces index + 1)
                  | true ↦ do
                    sent ←
                        fetch_gap (ask_chain (remove_first base_seq_num_name_space_prefix ns))
                          r.start_seq_num (r.end_seq_num - r.start_seq_num)
                    ok (sent, wrapped namespaces index + 1)
                ]),
              after,
            )
      ]
