-- ===== src/Tests/HistoryWitnesses.antt =====
-- The theorems on the life of a namespace at a concrete store.
use verulink.Base.{ℕ, ◌<◌, ◌≤◌, ◌≡◌, refl, true, List, [], ◌∷◌, take, ok, arith}
use verulink.Store.BaseSeq.Encoding.{SeqHeight}
use verulink.Store.BaseSeq.Refinement.{IsBase}
use verulink.Store.BaseSeq.Prune.{prune_base_seq_num_range}
use verulink.Store.BaseSeq.Gap.{gap}
use verulink.Store.Db.{SeqHeightRanges, prune_base_seq_num, store_base_seq_num}
use verulink.Store.BaseSeq.History.{
  IsDelivered, State, Steps, deliver, next, prune_base_seq_num-Steps,
}
use verulink.Store.BaseSeq.History.Sound.{Steps-delivered}
use verulink.Tests.Journal.{journal, Write}
use verulink.Tests.Stores.{ns, delivered, gapped, gapped-IsBase}

abbrev between_2_and_5 : SeqHeightRanges
between_2_and_5 = record { start_seq_num = 2; end_seq_num = 5; start_height = 20; end_height = 50 }

found_gap : gap (1, 10) (take 999 ((2, 20) ∷ (5, 50) ∷ [])) ≡ (between_2_and_5, true)
unfolding gap
found_gap = refl

pruned : (prune_base_seq_num journal ns gapped).0 ≡ ok (between_2_and_5, true)
pruned =
    rw (prune_base_seq_num_range journal ns gapped (1, 10) ((2, 20) ∷ (5, 50) ∷ []) gapped-IsBase)
      (rw found_gap)

abbrev after_tick : State (List Write)
after_tick = record { db = (prune_base_seq_num journal ns gapped).1; pending = []; delivered = [] }

-- After the tick, packet 3 is delivered.
abbrev after_delivery : State (List Write)
after_delivery = record {
  db = (store_base_seq_num journal ns 3 30 after_tick.db).1;
  pending = [];
  delivered = 3 ∷ [];
}

run : Steps journal ns (record { db = gapped; pending = []; delivered = [] }) after_delivery
run =
    next (prune_base_seq_num-Steps journal ns gapped [] (between_2_and_5, true) pruned)
      (deliver 3 30 (omega arith) (omega arith) refl)

Steps-delivered_example :
    (q : SeqHeight) × (k : List SeqHeight) × IsBase journal after_delivery.db ns (q ∷ k)
    × ((n : ℕ) → 1 ≤ n → n < q.0 → IsDelivered delivered (3 ∷ []) n)
Steps-delivered_example =
    Steps-delivered journal ns gapped (1, 10) ((2, 20) ∷ (5, 50) ∷ []) after_delivery gapped-IsBase
      run
