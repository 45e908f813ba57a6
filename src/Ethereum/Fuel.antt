-- ===== src/Ethereum/Fuel.antt =====
-- The loop of a pruning tick ends by itself: the fuel that the model gives it is enough.
use native.Mathlib.Nat.{mod-eq_of_lt}
use verulink.Base.{
  ℕ, zero, suc, ◌+◌, ◌^◌, ◌<◌, ◌≡◌, inl, inr, refl, sym, false, List, ok, leb, arith, Bool-cases,
  Result-cases,
}
use verulink.Chain.{Packet}
use verulink.Chain.BigInt.{ℤ}
use verulink.Store.Db.{SeqHeightRanges}
use verulink.Ethereum.Feed.{Filter, add_word, window_end, refetch, prune_windows}

module _ (filter : Filter) (dest : ℤ) (r : SeqHeightRanges) where
  prune_windows_past :
      (fuel s : ℕ) (sent : List Packet)
      → r.end_height < s
      → prune_windows filter dest r fuel s sent ≡ ok sent
  unfolding prune_windows
  prune_windows_past zero s sent lt = refl
  prune_windows_past (suc fuel) s sent lt =
      let past : leb s r.end_height ≡ false = ground arith in rw (prune_windows, past)

  -- If the end of a gap is 102 below the greatest word, the loop over its windows gives the same
  -- with any two amounts of fuel that reach past the end, one unit for each block, whatever the node
  -- answers.
  pub prune_windows_enough :
      (fuel more s : ℕ) (sent : List Packet)
      → r.end_height + 102 < 2 ^ 64
      → r.end_height < s + fuel
      → r.end_height < s + more
      → prune_windows filter dest r fuel s sent ≡ prune_windows filter dest r more s sent
  unfolding prune_windows
  prune_windows_enough zero more s sent word a b =
      sym (prune_windows_past more s sent (omega arith))
  prune_windows_enough (suc fuel) zero s sent word a b =
      prune_windows_past (suc fuel) s sent (omega arith)
  prune_windows_enough (suc fuel) (suc more) s sent word a b =
      elim (Bool-cases (leb s r.end_height)) [
        | inr past ↦ rw (prune_windows, past)
        | inl inside ↦ elim (Result-cases (filter s (window_end s r.end_height))) [
          | inr (inl (e, bad)) ↦ rw (prune_windows, inside, bad)
          | inr (inr bad) ↦ rw (prune_windows, inside, bad)
          | inl (pkts, good) ↦
              elim (Bool-cases (refetch dest r.start_seq_num r.end_seq_num pkts).1) [
                | inl stop ↦ rw (prune_windows, inside, good, stop)
                | inr go_on ↦
                    let next : add_word s 101 ≡ s + 101 = mod-eq_of_lt (ground arith) in
                    rw (prune_windows, inside, good, go_on, next)
                      (prune_windows_enough fuel more (s + 101) _ word (omega arith) (omega arith))
              ]
        ]
      ]
