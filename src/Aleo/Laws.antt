-- ===== src/Aleo/Laws.antt =====
-- What the aleo client sends, and what its ticks leave.
use verulink.Base.{
  ℕ_discrete, ℕ, zero, suc, ◌+◌, ◌-◌, ◌%◌, ◌^◌, ◌<◌, ◌≤◌, ◌≡◌, ◌≢◌, ◌⊎◌, panics, inl, inr, refl,
  sym, ap, ◌∙◌, true, false, List, [], ◌∷◌, ◌++◌, append-nil, append_assoc, Bytes, some, ok, err,
  Result-cases, Bool-cases, arith, All, get_elem?, remove_first,
}
use verulink.Chain.{Packet, IsAmong}
use verulink.Chain.BigInt.{ℤ, pos, big_string, eqb_ℤ}
use verulink.Store.Bolt.{Bolt}
use verulink.Store.Json.{Codec, IsTextOf}
use verulink.Store.Ops.Laws.{Commits}
use verulink.Store.Retry.{reload, retrieve-store}
use verulink.Store.Db.{SeqHeightRanges, prune_base_seq_num}
use verulink.Store.BaseSeq.Encoding.{SeqHeight}
use verulink.Store.BaseSeq.Refinement.{IsBase, start_after, get_starting_refines}
use verulink.Aleo.Client.{
  base_seq_num_name_space_prefix, retry_packet_namespace_prefix, to_int64, wrapped, manage_retry,
  retry_round,
}
use verulink.Aleo.Feed.{
  Ask, FeedState, Round, is_packet_not_found, gtb_ℤ, receive, pull, feed_round, feed_rounds,
  feed_packet, first_seq_num, fetch_gap, prune_round,
}

-- The packets are numbered from `m` on, each by the successor of the last in uint64, and `n` is next.
abbrev pub IsRun : ℕ → List Packet → ℕ → Type 0
IsRun m [] n = m ≡ n
IsRun m (p ∷ l) n = (p.sequence ≡ m) × IsRun ((m + 1) % 2 ^ 64) l n

-- The node answers with the packet that it is asked for.
abbrev pub IsFaithful : Ask → Type 0
IsFaithful ask = (n : ℕ) (p : Packet) → ask n ≡ ok p → p.sequence ≡ n

abbrev pub IsMatured : ℤ → Packet → Type 0
IsMatured matured p = gtb_ℤ (to_int64 p.height) matured ≡ false

IsRun-append :
    (m n : ℕ) (l : List Packet) (p : Packet)
    → IsRun m l n
    → p.sequence ≡ n
    → IsRun m (l ++ p ∷ []) ((n + 1) % 2 ^ 64)
IsRun-append m n [] p run e = (e ∙ sym run, ap (λ k. (k + 1) % 2 ^ 64) run)
IsRun-append m n (q ∷ l) p run e = (run.0, IsRun-append ((m + 1) % 2 ^ 64) n l p run.1 e)

pull_runs :
    (asks : List Ask) (matured : ℤ) (m : ℕ) (st : FeedState)
    → All IsFaithful asks
    → IsRun m st.sent st.next_seq_num
    → IsRun m (pull asks matured st).sent (pull asks matured st).next_seq_num
unfolding pull
pull_runs [] matured m st faithful run = run
pull_runs (ask ∷ asks) matured m st faithful run = elim (Result-cases (ask st.next_seq_num)) [
  | inl (pkt, e) ↦ elim (Bool-cases (gtb_ℤ (to_int64 pkt.height) matured)) [
    | inl later ↦ rw (pull, e, receive, later) run
    | inr now ↦
        rw (pull, e, receive, now)
          (pull_runs asks matured m _ faithful.1
            (IsRun-append m st.next_seq_num st.sent pkt run (faithful.0 st.next_seq_num pkt e)))
  ]
  | inr (inl (x, e)) ↦ elim (Bool-cases (is_packet_not_found x)) [
    | inl gone ↦ rw (pull, e, gone) run
    | inr other ↦ rw (pull, e, other) (pull_runs asks matured m st faithful.1 run)
  ]
  | inr (inr e) ↦ rw (pull, e) run
]

-- What the inner loop sends comes after what was sent before, and each packet's height is at most
-- the matured height.
pub pull-IsMatured :
    (asks : List Ask) (matured : ℤ) (st : FeedState)
    → (more : List Packet) × ((pull asks matured st).sent ≡ st.sent ++ more)
      × All (IsMatured matured) more
unfolding pull
pull-IsMatured [] matured st = ([], sym (append-nil st.sent), tt)
pull-IsMatured (ask ∷ asks) matured st = elim (Result-cases (ask st.next_seq_num)) [
  | inl (pkt, e) ↦ elim (Bool-cases (gtb_ℤ (to_int64 pkt.height) matured)) [
    | inl later ↦ ([], rw (pull, e, receive, later) (sym (append-nil st.sent)), tt)
    | inr now ↦
        let after : FeedState = record st {
          next_seq_num = (st.next_seq_num + 1) % 2 ^ 64;
          sent = st.sent ++ pkt ∷ [];
        } in
        let (more, same, matures) = pull-IsMatured asks matured after in
        (
          pkt ∷ more,
          rw (pull, e, receive, now) (same ∙ append_assoc st.sent (pkt ∷ []) more),
          (now, matures),
        )
  ]
  | inr (inl (x, e)) ↦ elim (Bool-cases (is_packet_not_found x)) [
    | inl gone ↦ ([], rw (pull, e, gone) (sym (append-nil st.sent)), tt)
    | inr other ↦
        let (more, same, matures) = pull-IsMatured asks matured st in
        (more, rw (pull, e, other) same, matures)
  ]
  | inr (inr e) ↦ ([], rw (pull, e) (sym (append-nil st.sent)), tt)
]

abbrev pub AllFaithful : Round → Type 0
AllFaithful r = All IsFaithful r.asks

feed_round_runs :
    (r : Round) (m : ℕ) (st : FeedState)
    → AllFaithful r
    → IsRun m st.sent st.next_seq_num
    → IsRun m (feed_round r st).sent (feed_round r st).next_seq_num
unfolding feed_round
feed_round_runs r m st faithful run = elim (Bool-cases (eqb_ℤ r.before_sleep (pos 0))) [
  | inl bad ↦ rw (feed_round, bad) run
  | inr good ↦ elim (Bool-cases (eqb_ℤ r.after_sleep (pos 0))) [
    | inl bad ↦ rw (feed_round, good, bad) run
    | inr fine ↦ rw (feed_round, good, fine) (pull_runs r.asks r.after_sleep m st faithful run)
  ]
]

feed_rounds-IsRun :
    (rounds : List Round) (m : ℕ) (st : FeedState)
    → All AllFaithful rounds
    → IsRun m st.sent st.next_seq_num
    → IsRun m (feed_rounds rounds st).sent (feed_rounds rounds st).next_seq_num
unfolding feed_rounds
feed_rounds-IsRun [] m st faithful run = run
feed_rounds-IsRun (r ∷ rounds) m st faithful run =
    feed_rounds-IsRun rounds m (feed_round r st) faithful.1 (feed_round_runs r m st faithful.0 run)

-- A start is the greater of two numbers, and 1 where both are 0.
abbrev pub IsStart : ℕ → ℕ → ℕ → Type 0
IsStart a b m = (a ≤ m) × (b ≤ m) × (0 < m) × ((m ≡ a) ⊎ ((m ≡ b) ⊎ ((a ≡ 0) × (b ≡ 0) × (m ≡ 1))))

first_seq_num-IsStart : (a b : ℕ) → IsStart b a (first_seq_num a b)
first_seq_num-IsStart a b = ground arith

module _ (bolt : Bolt) (chain_id : Bytes) (db : bolt.Db) (l : List SeqHeight)
    (base : IsBase bolt db (base_seq_num_name_space_prefix ++ chain_id) l) where
  -- If the node answers a request for a number only with the packet of that number, the feed of a
  -- destination sends packets with consecutive numbers, whichever requests fail. The first number
  -- is the greater of the configured one and the successor of the last that the store has recorded
  -- as delivered, and 1 where both are 0; the number after the last one that was sent is next.
  pub feed_packet_runs :
      (next_seq_num : ℕ) (rounds : List Round)
      → All AllFaithful rounds
      → (m : ℕ) × (st : FeedState) × (feed_packet bolt chain_id next_seq_num db rounds ≡ ok st)
        × IsStart (start_after l).0 next_seq_num m
        × IsRun m st.sent st.next_seq_num
  unfolding feed_packet
  feed_packet_runs next_seq_num rounds faithful =
      let first : ℕ = first_seq_num next_seq_num (start_after l).0 in
      let st : FeedState = record {
        next_seq_num = first;
        available_in_height = pos 1;
        sent = [];
      } in
      (
        first,
        feed_rounds rounds st,
        rw (feed_packet, get_starting_refines bolt db _ l base),
        first_seq_num-IsStart next_seq_num (start_after l).0,
        feed_rounds-IsRun rounds first st faithful refl,
      )

-- Where no request of the gap panics, the loop comes to its end with every packet that it is given.
fetch_gap_complete :
    (ask : Ask) (n i : ℕ)
    → ((k : ℕ) → i ≤ k → k < i + n → ask k ≢ panics)
    → (sent : List Packet) × (fetch_gap ask i n ≡ ok sent)
      × ((k : ℕ) (p : Packet) → i ≤ k → k < i + n → ask k ≡ ok p → IsAmong p sent)
unfolding fetch_gap
fetch_gap_complete ask zero i calm = ([], refl, λ k p lo hi e. absurd (omega arith))
fetch_gap_complete ask (suc n) i calm =
    let (rest, same, all) =
      fetch_gap_complete ask n (i + 1) λ k lo hi. calm k (omega arith) (omega arith) in
    elim (Result-cases (ask i)) [
      | inl (q, found) ↦ (
        q ∷ rest,
        rw (fetch_gap, found, same) refl,
        λ k p lo hi e. elim (ℕ_discrete i k) [
          | yes at ↦ let same : ask k ≡ ok q = ap ask (sym at) ∙ found in inl (cc)
          | no other ↦ inr (all k p (omega arith) (omega arith) e)
        ],
      )
      | inr (inl (x, lost)) ↦ (
        rest,
        rw (fetch_gap, lost, same) refl,
        λ k p lo hi e. elim (ℕ_discrete i k) [
          | yes at ↦ let gone : ask k ≡ err x = ap ask (sym at) ∙ lost in absurd (cc)
          | no other ↦ all k p (omega arith) (omega arith) e
        ],
      )
      | inr (inr lost) ↦ absurd (calm i (omega arith) (omega arith) lost)
    ]

module _ (bolt : Bolt) (ask_chain : Bytes → Ask) (namespaces : List Bytes) (index : ℕ) (ns : Bytes)
    (db : bolt.Db) where
  -- Where the tick's namespace has a gap and no request for a number of the gap panics: every
  -- packet from its start up to its end that the node answers with is sent again, other errors
  -- being skipped, and the next tick takes the next namespace.
  pub prune_round_resends :
      (r : SeqHeightRanges)
      → get_elem? namespaces (wrapped namespaces index) ≡ some ns
      → (prune_base_seq_num bolt ns db).0 ≡ ok (r, true)
      → ((k : ℕ)
          → r.start_seq_num ≤ k
          → k < r.end_seq_num
          → ask_chain (remove_first base_seq_num_name_space_prefix ns) k ≢ panics)
      → (sent : List Packet) × ((prune_round bolt ask_chain namespaces index db).0
          ≡ ok (sent, wrapped namespaces index + 1))
        × ((k : ℕ) (p : Packet)
            → r.start_seq_num ≤ k
            → k < r.end_seq_num
            → ask_chain (remove_first base_seq_num_name_space_prefix ns) k ≡ ok p
            → IsAmong p sent)
  unfolding prune_round
  prune_round_resends r at found calm =
      let (sent, same, all) =
        fetch_gap_complete (ask_chain (remove_first base_seq_num_name_space_prefix ns))
          (r.end_seq_num - r.start_seq_num) r.start_seq_num λ k lo hi. calm k lo (omega arith) in
      (sent, rw (prune_round, at, found, same) refl, λ k p lo hi e. all k p lo (omega arith) e)

module _ (bolt : Bolt) (codec : Codec) (namespaces : List Bytes) (index : ℕ) (db : bolt.Db)
    (pkt : Packet) (v : Bytes) where
  -- If commits succeed, a failed packet that `managePacket` has stored in its empty retry
  -- namespace is what the tick of `retryFeed` for that namespace sends again, and the index moves
  -- on.
  pub aleo_retry_round-manage_retry :
      Commits bolt
      → get_elem? namespaces (wrapped namespaces index)
        ≡ some (retry_packet_namespace_prefix ++ big_string pkt.destination.chain_id)
      → bolt.bucket db (retry_packet_namespace_prefix ++ big_string pkt.destination.chain_id)
        ≡ some []
      → IsTextOf codec pkt v
      → (retry_round bolt codec namespaces index (manage_retry bolt codec pkt db).1).0
        ≡ ok (reload codec pkt ∷ [], wrapped namespaces index + 1)
  unfolding retry_round manage_retry
  aleo_retry_round-manage_retry commits at here text =
      let (after, run, left) =
        retrieve-store codec bolt
          (retry_packet_namespace_prefix ++ big_string pkt.destination.chain_id) db pkt v commits
          here text 9 in
      rw (retry_round, at, run)
