-- ===== src/Ethereum/Rounds.antt =====
-- The loop `L1` of `FeedPacket` over what the node answers as its current block.
use mathlib.Core.Path.{subst}
use verulink.Base.{
  bind_ok, ok-injective, ℕ, ◌+◌, ◌-◌, ◌%◌, ◌*◌, ◌^◌, ◌<◌, ◌≡◌, inl, inr, sym, ap, ◌∙◌, List, [],
  ◌∷◌, ◌++◌, append-nil, append_assoc, Bytes, Result, ok, ltb, arith, select-append, All,
  Result-cases, Bool-cases,
}
use verulink.Chain.{Packet}
use verulink.Chain.BigInt.{big_string}
use verulink.Ethereum.Client.{Client, supports, block_height_prior_wait_dur}
use verulink.Ethereum.Feed.{
  Filter, Pass, Ending, finished, failed, crashed, out_of_fuel, supported, feed_windows,
  after_windows, feed_round,
}
use verulink.Ethereum.Coverage.{blocks, blocks-add, IsComplete, feed_windows-Covers}

module _ (emitted : ℕ → List Packet) (dests : List Bytes) where
  -- The supported packets of the blocks from a height to the pass's next one are sent, each once.
  abbrev pub IsSentFrom : ℕ → List Packet → Pass → Type 0
  IsSentFrom start sent p =
      (n : ℕ) × (p.next_block_height ≡ start + n)
      × (p.sent ≡ sent ++ supported dests (blocks emitted start n))

  sent_nothing :
      (start : ℕ) (sent : List Packet) (ending : Ending)
      → IsSentFrom start sent (record { next_block_height = start; sent = sent; ending = ending })
  unfolding blocks
  sent_nothing start sent ending = (0, omega arith, rw append-nil)

  -- What is sent from where a pass has stopped.
  sent_then :
      (start n : ℕ) (sent : List Packet) (p : Pass)
      → IsSentFrom (start + n) (sent ++ supported dests (blocks emitted start n)) p
      → IsSentFrom start sent p
  sent_then start n sent p (m, to, all) =
      let joined : supported dests (blocks emitted start (n + m))
          ≡ supported dests (blocks emitted start n)
            ++ supported dests (blocks emitted (start + n) m) =
        rw (blocks-add emitted start n m) (
          select-append (λ pkt. supports dests (big_string pkt.destination.chain_id))
            (blocks emitted start n) (blocks emitted (start + n) m)) in
      (
        n + m,
        omega (arith, to),
        all ∙ append_assoc sent _ _ ∙ ap (λ (l : List Packet). sent ++ l) (sym joined),
      )

  ended-IsSentFrom :
      (start : ℕ) (sent : List Packet) (next : ℕ) (more : List Packet) (ending : Ending)
      (go_on : ℕ → List Packet → Pass)
      → IsSentFrom start sent (record { next_block_height = next; sent = more; ending = ending })
      → IsSentFrom next more (go_on next more)
      → IsSentFrom start sent
          (after_windows (record { next_block_height = next; sent = more; ending = ending }) go_on)
  ended-IsSentFrom start sent next more finished go_on (n, a, b) h =
      sent_then start n sent (go_on next more) (
        subst (λ l. IsSentFrom (start + n) l (go_on next more)) b
          (subst (λ x. IsSentFrom x more (go_on next more)) a h))
  ended-IsSentFrom start sent next more failed go_on first h = first
  ended-IsSentFrom start sent next more crashed go_on first h = first
  ended-IsSentFrom start sent next more out_of_fuel go_on first h = first

-- The matured height of an answer is 102 below the greatest word, and there is fuel for all of its
-- windows.
abbrev pub IsInReach : ℕ → ℕ → Result ℕ → Type 0
IsInReach fuel wait answer =
    (cur : ℕ)
    → answer ≡ ok cur
    → ((cur + 2 ^ 64 - wait) % 2 ^ 64 + 102 < 2 ^ 64)
      × ((cur + 2 ^ 64 - wait) % 2 ^ 64 + 101 < 101 * fuel)

matured_in_reach :
    (fuel : ℕ) (cl : Client) (answer : Result ℕ) (h : ℕ)
    → IsInReach fuel cl.wait_height answer
    → block_height_prior_wait_dur cl answer ≡ ok h
    → (h + 102 < 2 ^ 64) × (h + 101 < 101 * fuel)
unfolding block_height_prior_wait_dur
matured_in_reach fuel cl answer h reach e =
    let (cur, known, last) = bind_ok answer _ h e in
    subst (λ x. (x + 102 < 2 ^ 64) × (x + 101 < 101 * fuel)) (ok-injective last) (reach cur known)

module _ (filter : Filter) (emitted : ℕ → List Packet) (complete : IsComplete emitted filter) where
  -- If the node's answers, where it answers, hold all packets of the blocks that it was asked for,
  -- and the heights that it gives are 102 below the greatest word after the wait, with fuel for
  -- their windows: whatever heights the node gives, in whatever order, one tick of the feed sends
  -- the supported packets of the blocks from the client's next height to the one that it leaves,
  -- each once and in order.
  pub feed_round-IsSentFrom :
      (fuel : ℕ) (cl : Client) (answers : List (Result ℕ)) (sent : List Packet)
      → All (IsInReach fuel cl.wait_height) answers
      → IsSentFrom emitted cl.dest_chains cl.next_block_height sent
          (feed_round fuel cl filter answers sent)
  unfolding feed_round
  feed_round-IsSentFrom fuel cl [] sent reach =
      sent_nothing emitted cl.dest_chains cl.next_block_height sent out_of_fuel
  feed_round-IsSentFrom fuel cl (answer ∷ answers) sent reach =
      elim (Result-cases (block_height_prior_wait_dur cl answer)) [
        | inr (inl (e, bad)) ↦
            rw (feed_round, bad)
              (sent_nothing emitted cl.dest_chains cl.next_block_height sent failed)
        | inr (inr bad) ↦
            rw (feed_round, bad)
              (sent_nothing emitted cl.dest_chains cl.next_block_height sent crashed)
        | inl (matured, good) ↦ elim (Bool-cases (ltb matured cl.next_block_height)) [
          | inl ahead ↦
              rw (feed_round, good, ahead)
                (sent_nothing emitted cl.dest_chains cl.next_block_height sent finished)
          | inr behind ↦
              let (word, enough) = matured_in_reach fuel cl answer matured reach.0 good in
              let p : Pass =
                feed_windows cl.dest_chains filter fuel matured cl.next_block_height
                  cl.next_block_height sent in
              let (n, a, b, _, _, _) =
                feed_windows-Covers cl.dest_chains filter emitted complete fuel matured
                  cl.next_block_height sent word (ground arith) (omega arith) (omega arith) in
              rw (feed_round, good, behind)
                (ended-IsSentFrom emitted cl.dest_chains cl.next_block_height sent
                  p.next_block_height p.sent p.ending
                  (λ next more.
                    feed_round fuel (record cl { next_block_height = next }) filter answers more)
                  (n, a, b)
                  (feed_round-IsSentFrom fuel
                    (record cl { next_block_height = p.next_block_height }) answers p.sent reach.1))
        ]
      ]
