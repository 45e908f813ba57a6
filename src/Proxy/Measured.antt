-- ===== src/Proxy/Measured.antt =====
-- The aleo client (attestor/chainService/chain/aleo) over attestor/proxy/main.go, when the relay is
-- measured. What the server sees of a request's url is a parameter: net/url escapes the braces of
-- the mapping's key.
use verulink.Base.{
  ℕ, ◌<◌, ◌^◌, ◌≡◌, refl, true, false, [], ◌∷◌, ◌++◌, Bytes, codes, eqb, Result, ok, ◌>>=◌, arith,
}
use verulink.Chain.BigInt.{ℤ, pos, itoa, emit, big_string}
use verulink.Aleo.Client.{Client, url, get_pkt_with_seq}
use verulink.Aleo.Parse.{construct_out_mapping_key}
use verulink.Aleo.Loop.{IsQuiet}
use verulink.Proxy.{Answer, handler, packet_text, model_packet, model_aleo_address, contains}
use verulink.Proxy.Laws.{Content, IsContent, printed}
use verulink.Proxy.RoundTrip.{decoded, get_pkt_with_seq-packet_text}
use verulink.Proxy.Served.{escaped_key, serve_http-escaped_key}

-- The bytes of the array that the proxy writes for an ethereum address.
abbrev pub model_array : Bytes
model_array =
    0 ∷ 0 ∷ 0 ∷ 0 ∷ 0 ∷ 0 ∷ 0 ∷ 0 ∷ 0 ∷ 0 ∷ 0 ∷ 0 ∷ 20 ∷ 119 ∷ 159 ∷ 153 ∷ 43 ∷ 47 ∷ 44 ∷ 66 ∷ 184
    ∷ 102 ∷ 15 ∷ 250 ∷ 66 ∷ 219 ∷ 203 ∷ 60 ∷ 124 ∷ 153 ∷ 48 ∷ 176 ∷ []

abbrev pub model_content : ℕ → Content
model_content seq_num = record {
  version = 0;
  sequence = seq_num;
  source_chain_id = pos 6694886634403;
  source_address = model_aleo_address;
  dest_chain_id = pos 28556963657430695;
  destination = model_array;
  sender = model_aleo_address;
  token = model_array;
  amount = 100;
  receiver = model_array;
  height = 105;
}

model_text :
    (seq_num : ℕ)
    → packet_text (model_packet (pos seq_num)) ≡ packet_text (printed (model_content seq_num))
unfolding itoa emit
model_text seq_num = refl

model_address-IsQuiet : IsQuiet model_aleo_address
unfolding eqb
model_address-IsQuiet = record {
  version = refl;
  sequence = refl;
  source = refl;
  destination = refl;
  message = refl;
  height = refl;
  chain_id = refl;
  addr = refl;
  token = refl;
  sender = refl;
  receiver = refl;
  amount = refl;
}

model_content-IsContent : (n : ℕ) → n < 2 ^ 63 → IsContent (model_content n)
model_content-IsContent n h = record {
  version = omega arith;
  sequence = omega arith;
  source_plain = refl;
  source_quiet = model_address-IsQuiet;
  destination = (omega arith, refl);
  sender_plain = refl;
  sender_quiet = model_address-IsQuiet;
  token = (omega arith, refl);
  receiver = (omega arith, refl);
  height = omega arith;
}

-- The client gets the body of the answer, whatever its status.
abbrev pub body_of : Result Answer → Result Bytes
body_of answered = do a ← answered; ok a.body

module _ (reverse_proxy : Bytes → Result Answer) (url_string : Bytes → Bytes) where
  abbrev pub measured : Bytes → Result Bytes
  measured request = body_of (handler true reverse_proxy (url_string request))

  -- When the relay is measured, the aleo client gets from the proxy, for every sequence number in the
  -- range of `int` and every chain that it asks for, the model packet with that sequence number. The
  -- server sees the braces of the mapping's key escaped, and its url is of no other kind.
  pub get_pkt_with_seq-measured :
      (bytes_to_address : Bytes → Bytes) (cl : Client) (dst : ℤ) (seq_num : ℕ) (s : Bytes)
      → seq_num < 2 ^ 63
      → url_string (
          url measured cl
          ++ codes "/program/"
          ++ cl.program_id
          ++ codes "/mapping/"
          ++ codes "out_packets"
          ++ codes "/"
          ++ construct_out_mapping_key (big_string dst) seq_num)
        ≡ s ++ b'/' ∷ escaped_key dst seq_num
      → eqb (s ++ b'/' ∷ escaped_key dst seq_num) (codes "/testnet/latest/height") ≡ false
      → contains (s ++ b'/' ∷ escaped_key dst seq_num) (codes "collector") ≡ false
      → get_pkt_with_seq measured cl bytes_to_address (big_string dst) seq_num
        ≡ ok (decoded bytes_to_address (model_content seq_num))
  get_pkt_with_seq-measured bytes_to_address cl dst seq_num s small escaped no_height no_collector =
      let answered : measured (
            url measured cl
            ++ codes "/program/"
            ++ cl.program_id
            ++ codes "/mapping/"
            ++ codes "out_packets"
            ++ codes "/"
            ++ construct_out_mapping_key (big_string dst) seq_num)
          ≡ ok (packet_text (printed (model_content seq_num))) =
        unfold handler in
        rw
          (
            escaped,
            serve_http-escaped_key s dst seq_num small no_height no_collector,
            ← model_text seq_num,
          )
          refl in
      get_pkt_with_seq-packet_text bytes_to_address (model_content seq_num)
        (model_content-IsContent seq_num small) measured cl (big_string dst) seq_num answered
