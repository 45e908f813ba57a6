-- ===== src/Relay/Collector/Laws.antt =====
-- The rounds of the loop that asks the db-service for missed packets, and the classes of its answers.
use native.Mathlib.Nat.{mod-lt}
use verulink.Base.{
  ℕ, ◌+◌, ◌%◌, ◌<◌, ◌≡◌, inl, inr, sym, ap, List, map, Bytes, codes, eqb, eqb_iff, ==_iff, ◌≢◌,
  Option, none, some, Result, ok, err, panics, already_relayed, or_panic, length, get_elem?,
  bind_ok, Bool-cases, ◌>>=◌, ◌==◌, if◌then◌else◌, arith,
}
use verulink.Chain.{MissedPacket}
use verulink.Relay.Web.{Web, Response, unexpected_status}
use verulink.Relay.Collector.{
  Collector, after_fetch, collector_answer, fetch_missed_packets, receive_round, read_all,
}

after_fetch_lt :
    (c : Collector) (i j : ℕ) (r : Result (Option (List MissedPacket))) (pkts : List MissedPacket)
    → i < length c.chain_id_to_address
    → after_fetch c i r ≡ ok (pkts, j)
    → j < length c.chain_id_to_address
unfolding after_fetch
after_fetch_lt c i j (ok (some l)) pkts lt e =
    let next : (i + 1) % length c.chain_id_to_address ≡ j = cc in
    rw (sym next) (mod-lt (i + 1) (omega arith))
after_fetch_lt c i j (ok none) pkts lt e = cc
after_fetch_lt c i j (err x) pkts lt e = let same : i ≡ j = cc in omega arith
after_fetch_lt c i j panics pkts lt e = cc

-- If the index is inside the list of wallets and a round returns, its next index is inside as
-- well, so that the next round finds a wallet.
pub receive_round_lt :
    (web : Web) (details : Bytes → Result (Option (List MissedPacket))) (c : Collector) (i j : ℕ)
    (pkts : List MissedPacket)
    → i < length c.chain_id_to_address
    → receive_round web details c i ≡ ok (pkts, j)
    → j < length c.chain_id_to_address
unfolding receive_round
receive_round_lt web details c i j pkts lt e =
    let (wallet, found, rest) =
      bind_ok (or_panic (get_elem? (map (λ (p : Bytes × Bytes). p.1) c.chain_id_to_address) i))
        (λ w. after_fetch c i (fetch_missed_packets web details c w)) (pkts, j) e in
    after_fetch_lt c i j (fetch_missed_packets web details c wallet) pkts lt rest

not_relayed : ◌≡◌ {A = Result (Unit {0})} (ok tt) (err already_relayed) → ⊥
not_relayed e = cc

unexpected_not_relayed :
    ◌≡◌ {A = Result (Unit {0})} (err unexpected_status) (err already_relayed) → ⊥
unexpected_not_relayed e = cc

relayed :
    (r : Result Bytes)
    → r ≢ err already_relayed
    → ◌≡◌ {A = Result (Unit {0})}
        (do text ← r; if eqb text (codes "Duplicate packet") then err already_relayed else ok tt)
        (err already_relayed)
    → r ≡ ok (codes "Duplicate packet")
relayed (ok text) h e = elim (Bool-cases (eqb text (codes "Duplicate packet"))) [
  | inl same ↦ ap ok ((eqb_iff text (codes "Duplicate packet")).0 same)
  | inr other ↦ absurd (not_relayed (rw other at e))
]
relayed (err x) h e = absurd (h cc)
relayed panics h e = cc

-- If reading the answer's text does not itself give the error for duplicates, a delivery is taken
-- for a duplicate only on the status for created with the message for duplicates.
pub collector_answer_relayed :
    (response : Bytes → Result Bytes) (resp : Response)
    → response (read_all resp.body) ≢ err already_relayed
    → collector_answer response resp ≡ err already_relayed
    → (resp.status_code ≡ 201) × (response (read_all resp.body) ≡ ok (codes "Duplicate packet"))
unfolding collector_answer
collector_answer_relayed response resp other e = elim (Bool-cases (resp.status_code == 201)) [
  | inl created ↦ (
    (==_iff resp.status_code 201).0 created,
    relayed (response (read_all resp.body)) other (rw created at e),
  )
  | inr wrong ↦ absurd (unexpected_not_relayed (rw wrong at e))
]
