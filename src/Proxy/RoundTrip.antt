-- ===== src/Proxy/RoundTrip.antt =====
-- The packet that the aleo client (attestor/chainService/chain/aleo) gets of a text that
-- attestor/proxy/main.go writes.
use verulink.Base.{
  ℕ, ◌<◌, ◌^◌, ◌%◌, ◌≡◌, refl, false, ◌∷◌, ◌++◌, map, Bytes, codes, Result, ok, arith, drop, join,
  eqb,
}
use verulink.Chain.{Packet}
use verulink.Chain.BigInt.{pos, itoa, big_string}
use verulink.Aleo.Parse.{
  number, parse_aleo_packet, parse_aleo_eth_addr_to_hex_string, construct_out_mapping_key,
}
use verulink.Aleo.Amounts.{number-big_string, amount-itoa}
use verulink.Aleo.Address.{word, parse_aleo_eth_addr-joined_words}
use verulink.Aleo.Words.{packet_of}
use verulink.Aleo.Client.{Client, url, get_pkt_with_seq}
use verulink.Proxy.{packet_text}
use verulink.Proxy.Laws.{
  Content, IsContent, IsArray, printed, content_words, parse_message-packet_text,
}

-- The packet of a content: of each array, the address of its last 20 bytes.
abbrev pub decoded : (Bytes → Bytes) → Content → Packet
decoded bytes_to_address c = record {
  version = c.version;
  source = record { chain_id = c.source_chain_id; address = c.source_address };
  destination = record {
    chain_id = c.dest_chain_id;
    address = bytes_to_address (drop 12 c.destination);
  };
  sequence = c.sequence;
  message = record {
    dest_token_address = bytes_to_address (drop 12 c.token);
    sender_address = c.sender;
    amount = pos c.amount;
    receiver_address = bytes_to_address (drop 12 c.receiver);
  };
  height = c.height;
  is_missed = false;
}

number-itoa :
    (u : ℕ) (suffix error : Bytes) (n : ℕ)
    → b'9' < u
    → number (u ∷ suffix) error (itoa n ++ u ∷ suffix) ≡ ok (pos n)
number-itoa u suffix error n h = unfold big_string in number-big_string u suffix error (pos n) h

module _ (bytes_to_address : Bytes → Bytes) (c : Content) (h : IsContent c) where
  array_lem :
      (bs : Bytes)
      → IsArray bs
      → parse_aleo_eth_addr_to_hex_string bytes_to_address (join b' ' (map word bs))
        ≡ ok (bytes_to_address (drop 12 bs))
  array_lem bs a = parse_aleo_eth_addr-joined_words bytes_to_address bs a.0 a.1

  parse_aleo_packet-content_words :
      parse_aleo_packet bytes_to_address (packet_of (content_words c))
      ≡ ok (decoded bytes_to_address c)
  unfolding parse_aleo_packet
  parse_aleo_packet-content_words =
      let failed : Bytes = codes "failed to parse version" in
      let version : c.version % 2 ^ 64 % 2 ^ 8 ≡ c.version = omega (arith, h.version) in
      let sequence : c.sequence % 2 ^ 64 ≡ c.sequence = omega (arith, h.sequence) in
      let height : c.height % 2 ^ 64 ≡ c.height = omega (arith, h.height) in
      rw
        (
          number-itoa b'u' (codes "8") failed c.version (omega arith),
          number-itoa b'u' (codes "64") (codes "failed to parse sequence") c.sequence (omega arith),
          number-big_string b'u' (codes "128") failed c.source_chain_id (omega arith),
          number-big_string b'u' (codes "128") failed c.dest_chain_id (omega arith),
          array_lem c.destination h.destination,
          array_lem c.token h.token,
          array_lem c.receiver h.receiver,
          amount-itoa c.amount,
          number-itoa b'u' (codes "64") failed c.height (omega arith),
          version,
          sequence,
          height,
        )
        refl

  -- The aleo client reads a packet off the text that is printed of it, each of its fields: the numbers
  -- in the ranges of their types, the chain ids and the amount of any size, the addresses of the
  -- aleo chain as they stand, and of each array of 32 bytes the address of its last 20 bytes. The
  -- node has answered the client's question with that text, and the addresses of the aleo chain
  -- hold no byte that is dropped or cut at, and are none of the names of the fields.
  pub get_pkt_with_seq-packet_text :
      (get : Bytes → Result Bytes) (cl : Client) (dst : Bytes) (seq_num : ℕ)
      → get (
          url get cl
          ++ codes "/program/"
          ++ cl.program_id
          ++ codes "/mapping/"
          ++ codes "out_packets"
          ++ codes "/"
          ++ construct_out_mapping_key dst seq_num)
        ≡ ok (packet_text (printed c))
      → get_pkt_with_seq get cl bytes_to_address dst seq_num ≡ ok (decoded bytes_to_address c)
  unfolding get_pkt_with_seq
  get_pkt_with_seq-packet_text get cl dst seq_num e =
      let present : eqb (packet_text (printed c)) (codes "null") ≡ false =
        unfold packet_text eqb in refl in
      rw (e, present, parse_message-packet_text c h, parse_aleo_packet-content_words) refl
