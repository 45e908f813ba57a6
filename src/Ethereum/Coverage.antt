-- ===== src/Ethereum/Coverage.antt =====
-- The feed sends the packets of every block once and in order, whatever the node answers.
use native.Mathlib.Nat.{mod-eq_of_lt}
use verulink.Base.{
  ℕ, zero, suc, ◌+◌, ◌-◌, ◌*◌, ◌^◌, ◌<◌, ◌≤◌, ◌≡◌, ◌≢◌, inl, inr, sym, ap, ◌∙◌, false, List, [],
  ◌++◌, append-nil, append_assoc, Bytes, ok, err, panics, ltb, leb, le→leb, arith, select-append,
  Bool-cases, Result-cases, Error,
}
use verulink.Chain.{Packet}
use verulink.Chain.BigInt.{big_string}
use verulink.Ethereum.Client.{supports}
use verulink.Ethereum.Feed.{
  Filter, Pass, Ending, finished, failed, crashed, out_of_fuel, add_word, window_end, supported,
  feed_windows,
}

-- The packets of `n` blocks from a height on, given those of each block.
unfoldable pub blocks : (ℕ → List Packet) → ℕ → ℕ → List Packet
blocks emitted from zero = []
blocks emitted from (suc n) = emitted from ++ blocks emitted (suc from) n

pub blocks-add :
    (emitted : ℕ → List Packet) (from m n : ℕ)
    → blocks emitted from (m + n) ≡ blocks emitted from m ++ blocks emitted (from + m) n
unfolding blocks
blocks-add emitted from zero n =
    let e : from + 0 ≡ from = omega arith in let z : 0 + n ≡ n = omega arith in rw (e, z)
blocks-add emitted from (suc m) n =
    let z : suc m + n ≡ suc (m + n) = omega arith in
    let s : from + suc m ≡ suc from + m = omega arith in
    rw (z, s, blocks-add emitted (suc from) m n, append_assoc)

-- Where the node answers, it answers with the packets of all the blocks that it was asked for.
abbrev pub IsComplete : (ℕ → List Packet) → Filter → Type 0
IsComplete emitted filter =
    (from n : ℕ) (pkts : List Packet)
    → filter from (from + n) ≡ ok pkts
    → pkts ≡ blocks emitted from (suc n)

window_last :
    (start last : ℕ) → start + 100 < 2 ^ 64 → last < start + 100 → window_end start last ≡ last
window_last start last word lt =
    let e : add_word start 100 ≡ start + 100 = mod-eq_of_lt word in rw e (ground arith)

window_full :
    (start last : ℕ)
    → start + 100 < 2 ^ 64
    → start + 100 ≤ last
    → window_end start last ≡ start + 100
window_full start last word le =
    let e : add_word start 100 ≡ start + 100 = mod-eq_of_lt word in rw e (ground arith)

module _ (dests : List Bytes) (filter : Filter) where
  round_ok :
      (fuel matured start next : ℕ) (sent pkts : List Packet)
      → start ≤ matured
      → filter start (window_end start matured) ≡ ok pkts
      → feed_windows dests filter (suc fuel) matured start next sent
        ≡ feed_windows dests filter fuel matured
            (add_word start 101)
            (add_word (window_end start matured) 1)
            (sent ++ supported dests pkts)
  unfolding feed_windows
  round_ok fuel matured start next sent pkts le e = rw (feed_windows, le→leb start matured le, e)

  round_past :
      (fuel matured start next : ℕ) (sent : List Packet)
      → matured < start
      → feed_windows dests filter (suc fuel) matured start next sent
        ≡ record { next_block_height = next; sent = sent; ending = finished }
  unfolding feed_windows
  round_past fuel matured start next sent lt =
      let e : leb start matured ≡ false = ground arith in rw (feed_windows, e)

  round_past_pos :
      (fuel matured start next : ℕ) (sent : List Packet)
      → 0 < fuel
      → matured < start
      → feed_windows dests filter fuel matured start next sent
        ≡ record { next_block_height = next; sent = sent; ending = finished }
  round_past_pos zero matured start next sent pos lt = absurd (omega arith)
  round_past_pos (suc fuel) matured start next sent pos lt =
      round_past fuel matured start next sent lt

  round_err :
      (fuel matured start next : ℕ) (sent : List Packet) (e : Error)
      → start ≤ matured
      → filter start (window_end start matured) ≡ err e
      → feed_windows dests filter (suc fuel) matured start next sent
        ≡ record { next_block_height = next; sent = sent; ending = failed }
  unfolding feed_windows
  round_err fuel matured start next sent x le e = rw (feed_windows, le→leb start matured le, e)

  round_panics :
      (fuel matured start next : ℕ) (sent : List Packet)
      → start ≤ matured
      → filter start (window_end start matured) ≡ panics
      → feed_windows dests filter (suc fuel) matured start next sent
        ≡ record { next_block_height = next; sent = sent; ending = crashed }
  unfolding feed_windows
  round_panics fuel matured start next sent le e = rw (feed_windows, le→leb start matured le, e)

  module _ (emitted : ℕ → List Packet) (complete : IsComplete emitted filter) where
    -- A pass has sent the packets of the blocks below its next height, each once and in order.
    abbrev pub Covers : ℕ → ℕ → List Packet → Pass → Type 0
    Covers matured start sent p =
        (n : ℕ) × (p.next_block_height ≡ start + n)
        × (p.sent ≡ sent ++ supported dests (blocks emitted start n))
        × (start + n ≤ matured + 1)
        × (p.ending ≢ out_of_fuel)
        × (p.ending ≡ finished → start + n ≡ matured + 1)

    Covers-none :
        (matured start : ℕ) (sent : List Packet) (ending : Ending)
        → start ≤ matured + 1
        → ending ≢ out_of_fuel
        → (ending ≡ finished → start ≡ matured + 1)
        → Covers matured start sent
            (record { next_block_height = start; sent = sent; ending = ending })
    unfolding blocks
    Covers-none matured start sent ending le ne h =
        let e : start + 0 ≡ start = omega arith in
        (0, sym e, rw append-nil, omega arith, ne, λ f. e ∙ h f)

    Covers-window :
        (matured start w : ℕ) (sent pkts : List Packet) (p : Pass)
        → pkts ≡ blocks emitted start (suc w)
        → Covers matured (start + suc w) (sent ++ supported dests pkts) p
        → Covers matured start sent p
    Covers-window matured start w sent pkts p e (n, a, b, c, d, f) =
        let z : start + suc w + n ≡ start + (suc w + n) = omega arith in
        let joined : supported dests pkts ++ supported dests (blocks emitted (start + suc w) n)
            ≡ supported dests (blocks emitted start (suc w + n)) =
          rw (e, blocks-add emitted start (suc w) n)
            (sym (
              select-append (λ pkt. supports dests (big_string pkt.destination.chain_id))
                (blocks emitted start (suc w)) (blocks emitted (start + suc w) n))) in
        (
          suc w + n,
          a ∙ z,
          b
              ∙ (append_assoc sent (supported dests pkts)
                    (supported dests (blocks emitted (start + suc w) n))
                  ∙ ap (λ (l : List Packet). sent ++ l) joined),
          omega arith,
          d,
          λ q. sym z ∙ f q,
        )

    -- The last window ends at the matured height.
    last_window :
        (fuel matured start : ℕ) (sent pkts : List Packet)
        → matured + 102 < 2 ^ 64
        → start ≤ matured
        → matured < start + 100
        → 0 < fuel
        → filter start (window_end start matured) ≡ ok pkts
        → Covers matured start sent (
            feed_windows dests filter fuel matured
              (add_word start 101)
              (add_word (window_end start matured) 1)
              (sent ++ supported dests pkts))
    last_window fuel matured start sent pkts word within short pos good =
        let to : window_end start matured ≡ start + (matured - start) =
          window_last start matured (omega arith) short ∙ omega arith in
        let all : pkts ≡ blocks emitted start (suc (matured - start)) =
          complete start (matured - start) pkts (rw to at good) in
        let a : add_word start 101 ≡ start + 101 = mod-eq_of_lt (omega arith) in
        let b : add_word (window_end start matured) 1 ≡ start + suc (matured - start) =
          ap (λ (x : ℕ). add_word x 1) to ∙ (mod-eq_of_lt (omega arith) ∙ omega arith) in
        rw
          (
            a,
            b,
            round_past_pos fuel matured (start + 101) (start + suc (matured - start))
                (sent ++ supported dests pkts) pos (omega arith),
          )
          (Covers-window matured start (matured - start) sent pkts _ all (
            Covers-none matured (start + suc (matured - start)) (sent ++ supported dests pkts)
              finished (omega arith) (λ e. cc) (λ e. omega arith)))

    -- Any other holds 101 blocks.
    full_window :
        (fuel matured start : ℕ) (sent pkts : List Packet)
        → matured + 102 < 2 ^ 64
        → start + 100 ≤ matured
        → filter start (window_end start matured) ≡ ok pkts
        → Covers matured (start + 101) (sent ++ supported dests pkts) (
            feed_windows dests filter fuel matured
              (start + 101)
              (start + 101)
              (sent ++ supported dests pkts))
        → Covers matured start sent (
            feed_windows dests filter fuel matured
              (add_word start 101)
              (add_word (window_end start matured) 1)
              (sent ++ supported dests pkts))
    full_window fuel matured start sent pkts word long good rest =
        let to : window_end start matured ≡ start + 100 =
          window_full start matured (omega arith) long in
        let all : pkts ≡ blocks emitted start 101 = complete start 100 pkts (rw to at good) in
        let a : add_word start 101 ≡ start + 101 = mod-eq_of_lt (omega arith) in
        let b : add_word (window_end start matured) 1 ≡ start + 101 =
          ap (λ (x : ℕ). add_word x 1) to ∙ (mod-eq_of_lt (omega arith) ∙ omega arith) in
        rw (a, b) (Covers-window matured start 100 sent pkts _ all rest)

    -- If the node's answers, where it answers, hold all packets of the blocks that it was asked
    -- for, the matured height is 102 below the greatest word and there is fuel for all windows:
    -- the pass ends within its fuel and has sent the supported packets of the blocks from its
    -- start to its next height once and in order. If no window has failed these are all the blocks
    -- up to the matured height.
    pub feed_windows-Covers :
        (fuel matured start : ℕ) (sent : List Packet)
        → matured + 102 < 2 ^ 64
        → start ≤ matured + 1
        → 0 < fuel
        → matured + 101 < start + 101 * fuel
        → Covers matured start sent (feed_windows dests filter fuel matured start start sent)
    feed_windows-Covers zero matured start sent word le pos enough = absurd (omega arith)
    feed_windows-Covers (suc fuel) matured start sent word le pos enough =
        elim (Bool-cases (ltb matured start)) [
          | inl past ↦
              let lt : matured < start = ground arith in
              rw (round_past fuel matured start start sent lt)
                (Covers-none matured start sent finished le (λ e. cc) (λ e. omega arith))
          | inr inside ↦
              let within : start ≤ matured = ground arith in
              elim (Result-cases (filter start (window_end start matured))) [
                | inr (inl (e, bad)) ↦
                    rw (round_err fuel matured start start sent e within bad)
                      (Covers-none matured start sent failed le (λ q. cc) (λ q. absurd (cc)))
                | inr (inr bad) ↦
                    rw (round_panics fuel matured start start sent within bad)
                      (Covers-none matured start sent crashed le (λ q. cc) (λ q. absurd (cc)))
                | inl (pkts, good) ↦
                    rw (round_ok fuel matured start start sent pkts within good)
                      (elim (Bool-cases (ltb matured (start + 100))) [
                        | inl short ↦
                            last_window fuel matured start sent pkts word within (ground arith)
                              (omega arith) good
                        | inr long ↦
                            let rest : Covers matured (start + 101) (sent ++ supported dests pkts) (
                                feed_windows dests filter fuel matured (start + 101) (start + 101)
                                  (sent ++ supported dests pkts)) =
                              feed_windows-Covers fuel matured (start + 101)
                                (sent ++ supported dests pkts) word (ground arith) (ground arith)
                                (ground arith) in
                            full_window fuel matured start sent pkts word (ground arith) good rest
                      ])
              ]
        ]
