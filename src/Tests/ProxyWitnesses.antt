-- ===== src/Tests/ProxyWitnesses.antt =====
-- The aleo client and the proxy at concrete requests.
use verulink.Base.{
  ℕ, ◌≡◌, refl, false, [], ◌∷◌, ◌++◌, Bytes, codes, eqb, Result, ok, err, message, if◌then◌else◌,
  ◌==◌, panics, arith, drop,
}
use verulink.Chain.BigInt.{pos, negsuc, itoa, emit, big_string}
use verulink.Aleo.Client.{Client, url, get_pkt_with_seq}
use verulink.Aleo.Parse.{construct_out_mapping_key}
use verulink.Aleo.Loop.{IsQuiet}
use verulink.Proxy.{Answer, packet_text, contains}
use verulink.Proxy.Laws.{Content, IsContent, printed}
use verulink.Proxy.RoundTrip.{decoded, get_pkt_with_seq-packet_text}
use verulink.Proxy.Served.{escaped_key}
use verulink.Proxy.Measured.{measured, model_content, model_array, get_pkt_with_seq-measured}

abbrev client : Client
client = record {
  name = codes "aleo";
  program_id = codes "bridge.aleo";
  query_url = codes "http://localhost:3000";
  network = codes "testnet";
  chain_id = pos 6694886634403;
  wait_height = 10;
  dest_chains_id_map = [];
  validity_wait_dur = 1;
  retry_packet_wait_dur = 1;
  prune_base_seq_wait_dur = 1;
  avg_block_gen_dur = 1;
}

abbrev sent : Content
sent = record {
  version = 1;
  sequence = 7;
  source_chain_id = pos 2;
  source_address = codes "aleo1x";
  dest_chain_id = negsuc 4;
  destination = model_array;
  sender = codes "aleo1y";
  token = model_array;
  amount = 120;
  receiver = model_array;
  height = 55;
}

-- An address of the aleo chain is no name of a field.
abbrev address_is_quiet : (c : ℕ) → IsQuiet (codes "aleo1" ++ c ∷ [])
unfolding eqb
address_is_quiet c = record {
  version = refl;
  sequence = refl;
  source = refl;
  destination = refl;
  message = refl;
  height = refl;
  chain_id = refl;
  addr = refl;
  token = refl;
  sender = refl;
  receiver = refl;
  amount = refl;
}

sent-IsContent : IsContent sent
unfolding eqb
sent-IsContent = record {
  version = omega arith;
  sequence = omega arith;
  source_plain = refl;
  source_quiet = address_is_quiet b'x';
  destination = (omega arith, refl);
  sender_plain = refl;
  sender_quiet = address_is_quiet b'y';
  token = (omega arith, refl);
  receiver = (omega arith, refl);
  height = omega arith;
}

-- A node that has one packet.
abbrev one_packet : Bytes → Result Bytes
one_packet request =
    if eqb request (
      codes "http://localhost:3000/testnet/program/bridge.aleo/mapping/out_packets/"
      ++ codes "{chain_id:1u128,sequence:7u64}")
    then ok (packet_text (printed sent))
    else err (message (codes "no such value"))

asked :
    one_packet (
      url one_packet client
      ++ codes "/program/"
      ++ codes "bridge.aleo"
      ++ codes "/mapping/"
      ++ codes "out_packets"
      ++ codes "/"
      ++ construct_out_mapping_key (codes "1") 7)
    ≡ ok (packet_text (printed sent))
unfolding construct_out_mapping_key itoa emit eqb
asked = refl

get_pkt_with_seq-packet_text_example :
    get_pkt_with_seq one_packet client (λ b. b) (codes "1") 7 ≡ ok (decoded (λ b. b) sent)
get_pkt_with_seq-packet_text_example =
    get_pkt_with_seq-packet_text (λ b. b) sent sent-IsContent one_packet client (codes "1") 7 asked

abbrev escape : Bytes → Bytes
escape [] = []
escape (c ∷ s) =
    let rest = escape s in
    if c == b'{' then codes "%7B" ++ rest else if c == b'}' then codes "%7D" ++ rest else c ∷ rest

-- A request as the server sees it: without the host, and with its braces escaped.
abbrev seen : Bytes → Bytes
seen request = escape (drop 21 request)

abbrev refused : Bytes → Result Answer
refused request = panics

abbrev before_key : Bytes
before_key = codes "/testnet/program/bridge.aleo/mapping/out_packets"

escaped :
    seen (
      url (measured refused seen) client
      ++ codes "/program/"
      ++ codes "bridge.aleo"
      ++ codes "/mapping/"
      ++ codes "out_packets"
      ++ codes "/"
      ++ construct_out_mapping_key (big_string (pos 28556963657430695)) 42)
    ≡ before_key ++ b'/' ∷ escaped_key (pos 28556963657430695) 42
unfolding construct_out_mapping_key big_string itoa emit
escaped = refl

is_no_height :
    eqb
      (before_key ++ b'/' ∷ escaped_key (pos 28556963657430695) 42)
      (codes "/testnet/latest/height")
    ≡ false
unfolding eqb big_string itoa emit
is_no_height = refl

is_no_collector :
    contains (before_key ++ b'/' ∷ escaped_key (pos 28556963657430695) 42) (codes "collector")
    ≡ false
unfolding big_string itoa emit
is_no_collector = refl

get_pkt_with_seq-measured_example :
    get_pkt_with_seq (measured refused seen) client (λ b. b) (big_string (pos 28556963657430695)) 42
    ≡ ok (decoded (λ b. b) (model_content 42))
get_pkt_with_seq-measured_example =
    get_pkt_with_seq-measured refused seen (λ b. b) client (pos 28556963657430695) 42 before_key
      (omega arith) escaped is_no_height is_no_collector
