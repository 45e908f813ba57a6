-- ===== src/Proxy.antt =====
-- attestor/proxy/main.go: the proxy that stands between an attestor and its services, and answers in
-- their place when the relay is measured. The reverse proxy of the standard library, `url.Parse` and
-- the requests themselves are parameters.
pub mod Laws
pub mod RoundTrip
pub mod Served
pub mod Measured
use verulink.Base.{
  ℕ, zero, suc, ◌-◌, ◌^◌, Bool, true, false, ◌&&◌, ◌||◌, List, [], ◌∷◌, ◌++◌, Bytes, codes, eqb,
  Option, none, some, Result, ok, err, panics, or_panic, ◌>>=◌, if◌then◌else◌, ltb, leb, length,
  last?, get_elem?, split, starts_with,
}
use verulink.Chain.BigInt.{ℤ, pos, negsuc, itoa, big_string, set_string}

pub record Answer : Type 0 where
  pub status : ℕ
  pub headers : List (Bytes × Bytes)
  pub body : Bytes

-- The arguments of the `Sprintf` that writes a packet.
pub record Printed : Type 0 where
  pub version : ℕ
  pub sequence : ℤ
  pub source_chain_id : ℤ
  pub source_address : Bytes
  pub dest_chain_id : ℤ
  pub dest_address : Bytes
  pub sender_address : Bytes
  pub dest_token_address : Bytes
  pub amount : Bytes
  pub receiver_address : Bytes
  pub height : ℕ

unfoldable pub packet_text : Printed → Bytes
packet_text p =
    codes "{\\n  version: "
    ++ (itoa p.version
        ++ (codes "u8,\\n  sequence: "
            ++ (big_string p.sequence
                ++ (codes "u64 ,\\n  source: {\\n    chain_id: "
                    ++ (big_string p.source_chain_id
                        ++ (codes "u128,\\n    addr: "
                            ++ (p.source_address
                                ++ (codes "\\n  },\\n  destination: {\\n    chain_id: "
                                    ++ (big_string p.dest_chain_id
                                        ++ (codes "u128,\\n    addr: "
                                            ++ (p.dest_address
                                                ++ (codes
                                                      "},\\n  message: {\\n        sender_address: "
                                                    ++ (p.sender_address
                                                        ++ (codes ",\\n  dest_token_address: "
                                                            ++ (p.dest_token_address
                                                            ++ (codes ",\\n  amount: "
                                                            ++ (p.amount
                                                            ++ (codes "u128,\\n  receiver_address: "
                                                            ++ (p.receiver_address
                                                            ++ (codes "\\n     },\\n  height: "
                                                            ++ (itoa p.height
                                                            ++ codes "u64\\n}")))))))))))))))))))))

abbrev pub model_eth_address : Bytes
model_eth_address =
    codes "[ 0u8, 0u8, 0u8, 0u8, 0u8, 0u8, 0u8, 0u8, 0u8, 0u8, 0u8, 0u8, 20u8, 119u8, 159u8, "
    ++ codes "153u8, 43u8, 47u8, 44u8, 66u8, 184u8, 102u8, 15u8, 250u8, 66u8, 219u8, 203u8, "
    ++ codes "60u8, 124u8, 153u8, 48u8, 176u8 ]"

abbrev pub model_aleo_address : Bytes
model_aleo_address = codes "aleo1fcg4k0sacadavag292p7x9ggm6889aay6wn9m8ftnmynh67cg5xsx8ycu8"

-- The packet that the proxy answers with, whatever chain is asked for.
abbrev pub model_packet : ℤ → Printed
model_packet seq_int = record {
  version = 0;
  sequence = seq_int;
  source_chain_id = pos 6694886634403;
  source_address = model_aleo_address;
  dest_chain_id = pos 28556963657430695;
  dest_address = model_eth_address;
  sender_address = model_aleo_address;
  dest_token_address = model_eth_address;
  amount = codes "100";
  receiver_address = model_eth_address;
  height = 105;
}

-- `strings.Contains`.
abbrev pub contains : Bytes → Bytes → Bool
contains [] pattern = starts_with pattern []
contains (c ∷ s) pattern = let rest = contains s pattern in starts_with pattern (c ∷ s) || rest

abbrev pub first_prefix : List Bytes → Bytes → Option Bytes
first_prefix [] s = none
first_prefix (p ∷ patterns) s =
    let rest = first_prefix patterns s in if starts_with p s then some p else rest

-- The replacer that drops the patterns; the number counts the bytes of an occurrence that are still
-- to be dropped.
unfoldable pub replace : List Bytes → ℕ → Bytes → Bytes
replace patterns skip [] = []
replace patterns (suc skip) (c ∷ s) = replace patterns skip s
replace patterns zero (c ∷ s) = elim (first_prefix patterns (c ∷ s)) [
  | none ↦ c ∷ replace patterns zero s
  | some p ↦ replace patterns (length p - 1) s
]

abbrev pub dropped : List Bytes
dropped = codes "sequence:" ∷ codes "u64" ∷ codes "%7D" ∷ []

abbrev in_int : ℤ → Bool
in_int (pos n) = ltb n (2 ^ 63)
in_int (negsuc n) = ltb n (2 ^ 63)

abbrev when_int : ℤ → Option ℤ
when_int z = if in_int z then some z else none

-- `strconv.Atoi`, where `none` stands for its errors.
abbrev pub atoi_int : Bytes → Option ℤ
atoi_int s = elim (set_string s) [ none ↦ none | some z ↦ when_int z ]

abbrev pub answer : ℕ → Bytes → Answer
answer status body = record { status = status; headers = []; body = body }

-- An index that is out of range panics.
unfoldable pub requested_sequence : Bytes → Result Bytes
unfolding replace
requested_sequence url = do
  last ← or_panic (last? (split b'/' url))
  found ← or_panic (get_elem? (split b',' last) 1)
  ok (replace dropped 0 found)

-- A number that is none is answered with nothing, which is status 200.
unfoldable pub serve_http : Bytes → Result Answer
unfolding requested_sequence packet_text eqb
serve_http url =
    if eqb url (codes "/testnet/latest/height")
    then ok (answer 200 (codes "1000"))
    else if contains url (codes "collector")
    then ok (answer 201 (codes "100"))
    else (do
      seq ← requested_sequence url
      ok (elim (atoi_int seq) [
        | none ↦ answer 200 []
        | some seq_int ↦ answer 200 (packet_text (model_packet seq_int))
      ]))

-- The handler sets a header before it answers; what the reverse proxy answers is a parameter.
unfoldable pub handler : Bool → (Bytes → Result Answer) → Bytes → Result Answer
unfolding serve_http
handler bench_mark reverse_proxy url = do
  a ← if bench_mark then serve_http url else reverse_proxy url
  ok (record a { headers = (codes "X-Ben", codes "Rad") ∷ a.headers })

-- The flags are checked and the remote url is parsed before the proxy serves.
unfoldable pub start :
    (Bytes → Result Bytes)
    → (Bytes → Bytes → Result Answer)
    → Bool
    → Bytes
    → Bytes
    → Result (Bytes → Result Answer)
unfolding handler eqb
start parse single_host bench_mark remote_url port =
    if eqb remote_url [] || eqb port [] then panics else elim (parse remote_url) [
      | ok remote ↦ ok (handler bench_mark (single_host remote))
      | err e ↦ panics
      | panics ↦ panics
    ]
