-- ===== src/Tests/CollectorWitnesses.antt =====
-- The theorems of the collector's client at a concrete network.
use verulink.Base.{
  ◌<◌, ◌≡◌, ◌≢◌, refl, List, [], ◌∷◌, ◌++◌, Bytes, codes, eqb, Option, some, Result, ok, err,
  already_relayed, length, arith,
}
use verulink.Chain.{MissedPacket}
use verulink.Relay.Web.{Web, Response}
use verulink.Relay.Collector.{
  Collector, receive_round, fetch_missed_packets, after_fetch, collector_answer, read_all,
}
use verulink.Relay.Collector.Laws.{receive_round_lt, collector_answer_relayed}

-- Every request is answered by an empty list.
abbrev answering : Web
answering = record {
  send = λ r. ok (record { status_code = 200; body = ok [] });
  build_url = λ s u h p. h ++ p;
  parse_url = λ u. ok u;
  join_path = λ u p. u ++ p;
  encode_query = λ q. [];
  with_query = λ u q. u ++ q;
  marshal_object = λ o. ok [];
  unmarshal_strings = λ b. ok [];
}

abbrev two_wallets : Collector
two_wallets = record {
  uri = codes "u";
  chain_id_to_address = (codes "1", codes "a") ∷ (codes "2", codes "b") ∷ [];
  collector_wait_dur = 0;
}

abbrev no_packets : Bytes → Result (Option (List MissedPacket))
no_packets b = ok (some [])

last_round : receive_round answering no_packets two_wallets 1 ≡ ok ([], 0)
unfolding receive_round fetch_missed_packets after_fetch
last_round = refl

receive_round_lt_example : 0 < length two_wallets.chain_id_to_address
receive_round_lt_example =
    receive_round_lt answering no_packets two_wallets 1 0 [] (omega arith) last_round

abbrev duplicate : Response
duplicate = record { status_code = 201; body = ok [] }

abbrev says_duplicate : Bytes → Result Bytes
says_duplicate b = ok (codes "Duplicate packet")

is_duplicate : collector_answer says_duplicate duplicate ≡ err already_relayed
unfolding collector_answer eqb
is_duplicate = refl

reads_well : says_duplicate (read_all duplicate.body) ≢ err already_relayed
reads_well e = cc

collector_answer_relayed_example :
    (duplicate.status_code ≡ 201)
    × (says_duplicate (read_all duplicate.body) ≡ ok (codes "Duplicate packet"))
collector_answer_relayed_example =
    collector_answer_relayed says_duplicate duplicate reads_well is_duplicate
