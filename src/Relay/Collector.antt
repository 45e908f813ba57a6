-- ===== src/Relay/Collector.antt =====
-- attestor/chainService/relay/collector/collector.go: the client of the db-service.
pub mod Laws
use verulink.Base.{
  ℕ, ◌+◌, ◌*◌, ◌%◌, List, [], ◌∷◌, map, Bytes, codes, eqb, Result, ok, err, panics, already_relayed,
  or_panic, Option, none, some, length, get_elem?, lookup, if◌then◌else◌, ◌==◌, ◌>>=◌,
}
use verulink.Chain.{ScreenedPacket, MissedPacket}
use verulink.Chain.BigInt.{big_string, itoa}
use verulink.Relay.Web.{
  Web, Response, Json, string, number, boolean, expect_status, status_ok, status_created,
  unexpected_status,
}
use verulink.Relay.Signer.{method_get, post}

abbrev pub hour : ℕ
hour = 3600 * 1_000_000_000

abbrev pub limit_size : ℕ
limit_size = 20

-- The map from chain ids to wallet addresses is the list of its pairs, in the order in which a
-- `range` visits them. Durations are in nanoseconds.
pub record Collector : Type 0 where
  pub uri : Bytes
  pub chain_id_to_address : List (Bytes × Bytes)
  pub collector_wait_dur : ℕ

pub record CollectorServiceConfig : Type 0 where
  pub uri : Bytes
  pub collector_wait_dur : ℕ
  pub ca_certificate : Bytes
  pub attestor_certificate : Bytes
  pub attestor_key : Bytes

-- `m[k]` of a missing key is the empty string.
abbrev pub or_blank : Option Bytes → Bytes
or_blank none = []
or_blank (some s) = s

unfoldable pub request_params : Collector → ScreenedPacket → Bytes → Bytes → List (Bytes × Json)
request_params c sp pkt_hash sig =
    let dest = big_string sp.packet.destination.chain_id in
    (codes "sourceChainId", string (big_string sp.packet.source.chain_id))
    ∷ (codes "destChainId", string dest)
    ∷ (codes "sequence", number sp.packet.sequence)
    ∷ (codes "signature", string sig)
    ∷ (codes "offChainAnalysis", boolean sp.is_white)
    ∷ (codes "attestorSigner", string (or_blank (lookup dest c.chain_id_to_address)))
    ∷ (codes "packetHash", string pkt_hash)
    ∷ []

-- An error of `io.ReadAll` is dropped.
abbrev pub read_all : Result Bytes → Bytes
read_all (ok r) = r
read_all (err e) = []
read_all panics = []

-- The error of `url.Parse` is dropped, and its nil result used.
abbrev pub parsed_or_panic : Result Bytes → Result Bytes
parsed_or_panic (ok u) = ok u
parsed_or_panic (err e) = panics
parsed_or_panic panics = panics

-- What a round sends, and the next index, from what it has fetched and its index.
unfoldable pub after_fetch :
    Collector → ℕ → Result (Option (List MissedPacket)) → Result (List MissedPacket × ℕ)
after_fetch c index (err e) = ok ([], index)
after_fetch c index panics = panics
after_fetch c index (ok none) = panics
after_fetch c index (ok (some packets)) = ok (packets, (index + 1) % length c.chain_id_to_address)

-- The answer of the db-service: `response` reads the message out of the JSON text.
unfoldable pub collector_answer : (Bytes → Result Bytes) → Response → Result (Unit {0})
collector_answer response resp =
    let delivered = (do
      text ← response (read_all resp.body)
      if eqb text (codes "Duplicate packet") then err already_relayed else ok tt) in
    if resp.status_code == status_created then delivered else err unexpected_status

module _ (web : Web) where
  open web use {send, parse_url, join_path, encode_query, with_query, marshal_object}

  unfoldable pub check_collector_health : Collector → Result (Unit {0})
  check_collector_health c = do
    resp ← send (record { method = method_get; url = c.uri; body = [] })
    accepted ← expect_status status_ok resp
    ok tt

  unfoldable pub send_to_collector :
      (Bytes → Result Bytes) → Collector → ScreenedPacket → Bytes → Bytes → Result (Unit {0})
  unfolding request_params collector_answer
  send_to_collector response c sp pkt_hash sig = do
    text ← marshal_object (request_params c sp pkt_hash sig)
    u ← parse_url c.uri
    let query = if sp.packet.is_missed then (codes "unconfirmed", codes "true") ∷ [] else []
    let url = with_query (join_path u (codes "signature")) (encode_query query)
    resp ← send (record { method = post; url = url; body = text })
    collector_answer response resp

  -- The request for missed packets of one wallet; a nil pointer is `none`.
  unfoldable pub fetch_missed_packets :
      (Bytes → Result (Option (List MissedPacket)))
      → Collector
      → Bytes
      → Result (Option (List MissedPacket))
  fetch_missed_packets details c wallet = do
    u ← parsed_or_panic (parse_url c.uri)
    let query = (codes "address", wallet) ∷ (codes "limit", itoa limit_size) ∷ []
    let url = with_query (join_path u (codes "unconfirmed")) (encode_query query)
    resp ← send (record { method = method_get; url = url; body = [] })
    accepted ← expect_status status_ok resp
    text ← accepted.body
    details text

  -- One round of `ReceivePktsFromCollector` behind the ticker: the packets that are sent to the
  -- channel, and the index of the next wallet. An error leaves the index.
  unfoldable pub receive_round :
      (Bytes → Result (Option (List MissedPacket))) → Collector → ℕ → Result (List MissedPacket × ℕ)
  unfolding fetch_missed_packets after_fetch
  receive_round details c next_address_index = do
    wallet ← or_panic (get_elem? (map (λ p. p.1) c.chain_id_to_address) next_address_index)
    after_fetch c next_address_index (fetch_missed_packets details c wallet)

-- The ticks of the loop. It does not start without a wallet.
unfoldable pub ticker_dur : Collector → Option ℕ
ticker_dur c =
    if length c.chain_id_to_address == 0
    then none
    else some (if c.collector_wait_dur == 0 then hour else c.collector_wait_dur)

abbrev pub key_pair_or_exit : Result (Unit {0}) → Result (Unit {0})
key_pair_or_exit (ok u) = ok tt
key_pair_or_exit (err e) = panics
key_pair_or_exit panics = panics

-- `SetupCollector`, given what reading the CA file and loading the key pair return. An error of
-- the second ends the process.
unfoldable pub setup_collector :
    Result Bytes
    → Result (Unit {0})
    → CollectorServiceConfig
    → List (Bytes × Bytes)
    → ℕ
    → Result Collector
setup_collector ca_cert key_pair cfg chain_id_to_address wait_time = do
  pem ← ca_cert
  loaded ← key_pair_or_exit key_pair
  ok (record {
    uri = cfg.uri;
    chain_id_to_address = chain_id_to_address;
    collector_wait_dur = wait_time;
  })
