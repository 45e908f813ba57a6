-- ===== src/Aleo/Fields.antt =====
-- attestor/chainService/chain/aleo/utils.go: the text of a packet in the mapping of the
-- aleo program, and its fields.
use verulink.Base.{
  ℕ, zero, suc, ◌&&◌, Bool, true, false, List, [], ◌∷◌, ◌++◌, Bytes, codes, eqb, Result, ok, err,
  panics, message, joined, ◌>>=◌, if◌then◌else◌, ltb, ◌==◌, ◌||◌, take, length, split, join,
}

pub record AleoPacketNetworkAddress : Type 0 where
  pub chain_id : Bytes
  pub address : Bytes

pub record AleoMessage : Type 0 where
  pub token : Bytes
  pub receiver : Bytes
  pub amount : Bytes
  pub sender : Bytes

pub record AleoPacket : Type 0 where
  pub version : Bytes
  pub source : AleoPacketNetworkAddress
  pub sequence : Bytes
  pub destination : AleoPacketNetworkAddress
  pub message : AleoMessage
  pub height : Bytes

-- The replacer drops every backslash that an `n` follows, with the `n`, and the single bytes.
abbrev pub is_dropped : ℕ → Bool
is_dropped c = c == b'{' || c == b'}' || c == b'[' || c == b']' || c == b' ' || c == b'"'

unfoldable pub trim : Bytes → Bytes
trim [] = []
trim (c ∷ []) = if is_dropped c then [] else c ∷ []
trim (c ∷ d ∷ s) = elim (c == b'\\' && d == b'n') [
  | true ↦ trim s
  | false ↦ let rest = trim (d ∷ s) in if is_dropped c then rest else c ∷ rest
]

-- `sl[i+1]`, where so many elements of the slice come after `sl[i]`.
abbrev pub next : ℕ → List Bytes → Result Bytes
next zero rest = panics
next (suc n) [] = panics
next (suc n) (w ∷ rest) = ok w

-- `sl[i+1:i+1+n]`: a slice may reach to the capacity of `sl`, which is that of `messages`.
abbrev pub slice : ℕ → List Bytes → Result (List Bytes)
slice n rest = if ltb (length rest) n then panics else ok (take n rest)

-- A loop over the first `n` words; the body has the number of words after it and all that follows.
abbrev pub for_each :
    (ℕ → List Bytes → Bytes → AleoPacket → Result AleoPacket)
    → ℕ
    → List Bytes
    → AleoPacket
    → Result AleoPacket
for_each body zero words pkt = ok pkt
for_each body (suc n) [] pkt = panics
for_each body (suc n) (v ∷ rest) pkt = do after ← body n rest v pkt; for_each body n rest after

abbrev pub source_field : ℕ → List Bytes → Bytes → AleoPacket → Result AleoPacket
source_field n rest v pkt =
    if eqb v (codes "chain_id")
    then (do w ← next n rest; ok (record pkt { source = record pkt.source { chain_id = w } }))
    else if eqb v (codes "addr")
    then (do w ← next n rest; ok (record pkt { source = record pkt.source { address = w } }))
    else ok pkt

abbrev pub destination_field : ℕ → List Bytes → Bytes → AleoPacket → Result AleoPacket
destination_field n rest v pkt =
    if eqb v (codes "chain_id")
    then (do
      w ← next n rest
      ok (record pkt { destination = record pkt.destination { chain_id = w } }))
    else if eqb v (codes "addr")
    then (do
      ws ← slice 32 rest
      ok (record pkt { destination = record pkt.destination { address = join b' ' ws } }))
    else ok pkt

abbrev pub message_field : ℕ → List Bytes → Bytes → AleoPacket → Result AleoPacket
message_field n rest v pkt =
    if eqb v (codes "dest_token_address")
    then (do
      ws ← slice 32 rest
      ok (record pkt { message = record pkt.message { token = join b' ' ws } }))
    else if eqb v (codes "sender_address")
    then (do w ← next n rest; ok (record pkt { message = record pkt.message { sender = w } }))
    else if eqb v (codes "receiver_address")
    then (do
      ws ← slice 32 rest
      ok (record pkt { message = record pkt.message { receiver = join b' ' ws } }))
    else if eqb v (codes "amount")
    then (do w ← next n rest; ok (record pkt { message = record pkt.message { amount = w } }))
    else ok pkt

-- A case of the loop of `parseMessage`.
abbrev pub top_field : List Bytes → Bytes → AleoPacket → Result AleoPacket
top_field rest v pkt =
    if eqb v (codes "version")
    then (do w ← next 1 rest; ok (record pkt { version = w }))
    else if eqb v (codes "sequence")
    then (do w ← next 1 rest; ok (record pkt { sequence = w }))
    else if eqb v (codes "source")
    then for_each source_field 4 rest pkt
    else if eqb v (codes "destination")
    then for_each destination_field 35 rest pkt
    else if eqb v (codes "message")
    then for_each message_field 70 rest pkt
    else if eqb v (codes "height")
    then (do w ← next 1 rest; ok (record pkt { height = w }))
    else ok pkt

unfoldable pub fields : List Bytes → AleoPacket → Result AleoPacket
fields [] pkt = ok pkt
fields (v ∷ rest) pkt = do after ← top_field rest v pkt; fields rest after

abbrev pub required_fields : List Bytes
required_fields =
    codes "version"
    ∷ codes "sequence"
    ∷ codes "source"
    ∷ codes "destination"
    ∷ codes "message"
    ∷ codes "height"
    ∷ []

abbrev pub occurs : Bytes → List Bytes → Bool
occurs v [] = false
occurs v (w ∷ ws) = eqb v w || occurs v ws

-- The errors about the fields that no word has named.
unfoldable pub missing : List Bytes → List Bytes → List Bytes
missing words [] = []
missing words (field ∷ names) =
    let rest = missing words names in
    if occurs field words then rest else (codes "could not find " ++ field ++ codes " field") ∷ rest

abbrev pub split_all : List Bytes → List Bytes
split_all [] = []
split_all (w ∷ ws) = split b':' w ++ split_all ws

abbrev pub no_packet : AleoPacket
no_packet = record {
  version = [];
  source = record { chain_id = []; address = [] };
  sequence = [];
  destination = record { chain_id = []; address = [] };
  message = record { token = []; receiver = []; amount = []; sender = [] };
  height = [];
}

-- The deferred function makes an error of a panic; the errors of the fields come after the loop.
abbrev pub checked : List Bytes → Result AleoPacket → Result AleoPacket
checked [] (ok pkt) = ok pkt
checked (e ∷ errs) (ok pkt) = err (joined (e ∷ errs))
checked errs (err e) = err e
checked errs panics = err (message (codes "error while parsing message"))

unfoldable pub parse_message : Bytes → Result AleoPacket
unfolding trim fields missing
parse_message s =
    let words = split_all (split b',' (trim s)) in
    checked (missing words required_fields) (fields words no_packet)
