-- ===== src/Tests/AleoWitnesses.antt =====
-- The theorems of the aleo client at concrete inputs.
use verulink.Aleo.Address.Array.{parse_aleo_eth_addr-construct}
use verulink.Aleo.Fields.{trim, split_all}
use verulink.Aleo.Parse.{
  construct_eth_address_for_aleo_parameter, parse_aleo_eth_addr_to_hex_string,
}
use verulink.Base.{
  panics, ◌≢◌, split, join, arith, ℕ, ◌<◌, ◌≤◌, ◌≡◌, inl, inr, refl, true, List, [], ◌∷◌, ◌++◌,
  some, Bytes, codes, eqb, take, ltb, Bool-cases, packet_not_found, ok, err, if◌then◌else◌,
}
use verulink.Chain.{Packet, IsAmong}
use verulink.Chain.BigInt.{pos, big_string, itoa, emit}
use verulink.Store.Db.{prune_base_seq_num}
use verulink.Store.BaseSeq.Gap.{gap}
use verulink.Store.BaseSeq.Prune.{prune_base_seq_num_range}
use verulink.Tests.Journal.{journal}
use verulink.Tests.Data.{pkt}
use verulink.Tests.Stores.{ns, delivered, gapped, gapped-IsBase, empty_at}
use verulink.Aleo.Feed.{Ask, FeedState, Round, feed_packet, prune_round}
use verulink.Aleo.Laws.{IsRun, IsStart, IsFaithful, feed_packet_runs, prune_round_resends}

-- The node has the packets up to 8, each at the height of its number.
abbrev numbered : ℕ → Packet
numbered n = record pkt { sequence = n; height = n }

abbrev up_to_8 : Ask
up_to_8 n = if ltb n 9 then ok (numbered n) else err (packet_not_found n [] [] 0)

up_to_8-IsFaithful : IsFaithful up_to_8
up_to_8-IsFaithful n p e = elim (Bool-cases (ltb n 9)) [
  | inl near ↦ let same : ok (numbered n) ≡ ok p = rw near at e in cc
  | inr far ↦ let gone : err (packet_not_found n [] [] 0) ≡ ok p = rw far at e in cc
]

up_to_8_calm : (n : ℕ) → up_to_8 n ≢ panics
up_to_8_calm n e = elim (Bool-cases (ltb n 9)) [
  | inl near ↦ let same : ok (numbered n) ≡ panics = rw near at e in cc
  | inr far ↦ let gone : err (packet_not_found n [] [] 0) ≡ panics = rw far at e in cc
]

abbrev two_asked : Round
two_asked = record { before_sleep = pos 9; after_sleep = pos 9; asks = up_to_8 ∷ up_to_8 ∷ [] }

feed_packet_runs_example :
    (m : ℕ) × (st : FeedState) × (feed_packet journal
        (codes "1")
        1
        gapped
        (two_asked ∷ two_asked ∷ [])
      ≡ ok st)
    × IsStart 6 1 m
    × IsRun m st.sent st.next_seq_num
feed_packet_runs_example =
    feed_packet_runs journal (codes "1") gapped delivered gapped-IsBase 1
      (two_asked ∷ two_asked ∷ [])
      (
        (up_to_8-IsFaithful, (up_to_8-IsFaithful, tt)),
        ((up_to_8-IsFaithful, (up_to_8-IsFaithful, tt)), tt),
      )

abbrev at_six : FeedState
at_six = record { next_seq_num = 6; available_in_height = pos 1; sent = [] }

found_gap :
    gap (1, 10) (take 999 ((2, 20) ∷ (5, 50) ∷ []))
    ≡ (record { start_seq_num = 2; end_seq_num = 5; start_height = 20; end_height = 50 }, true)
unfolding gap
found_gap = refl

gapped_range :
    (prune_base_seq_num journal ns gapped).0
    ≡ ok (record { start_seq_num = 2; end_seq_num = 5; start_height = 20; end_height = 50 }, true)
gapped_range =
    rw (prune_base_seq_num_range journal ns gapped (1, 10) ((2, 20) ∷ (5, 50) ∷ []) gapped-IsBase)
      (rw found_gap)

prune_round_resends_example :
    (sent : List Packet) × ((prune_round journal (λ c. up_to_8) (ns ∷ []) 1 gapped).0
      ≡ ok (sent, 1))
    × ((k : ℕ) (p : Packet) → 2 ≤ k → k < 5 → up_to_8 k ≡ ok p → IsAmong p sent)
prune_round_resends_example =
    prune_round_resends journal (λ c. up_to_8) (ns ∷ []) 1 ns gapped
      (record { start_seq_num = 2; end_seq_num = 5; start_height = 20; end_height = 50 }) refl
      gapped_range (λ k lo hi. up_to_8_calm k)

abbrev aleo_retry_ns : Bytes
aleo_retry_ns = codes "aleo_rpns" ++ big_string (pos 1)

aleo_empty_here : journal.bucket (empty_at aleo_retry_ns) aleo_retry_ns ≡ some []
unfolding eqb big_string itoa emit
aleo_empty_here = refl

-- Every text stands for the same 20 bytes.
abbrev same_bytes : Bytes → Bytes
same_bytes s = codes "abcdefghijklmnopqrst"

parse_aleo_eth_addr-construct_example :
    parse_aleo_eth_addr_to_hex_string
      (λ b. b)
      (join b' ' (
        split_all
          (split b',' (trim (construct_eth_address_for_aleo_parameter same_bytes (codes "0x61"))))))
    ≡ ok (codes "abcdefghijklmnopqrst")
parse_aleo_eth_addr-construct_example =
    parse_aleo_eth_addr-construct same_bytes (codes "0x61") (omega arith) refl (λ b. b)
