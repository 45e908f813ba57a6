-- ===== src/Aleo/Words.antt =====
-- The words of a whole packet: what `parseMessage` (attestor/chainService/chain/aleo/utils.go) makes
-- of them.
use verulink.Base.{
  ◌≡◌, refl, ◌∙◌, true, List, [], ◌∷◌, ◌++◌, Bytes, codes, eqb, ok, arith, All, length, join,
}
use verulink.Aleo.Fields.{
  AleoPacket, fields, missing, required_fields, occurs, no_packet, checked, for_each, source_field,
  destination_field, message_field,
}
use verulink.Aleo.Loop.{
  IsQuiet, fields_quiet, fields_all_quiet, source_lem, destination_lem, message_lem,
}

-- What stands between the names.
pub record PacketWords : Type 0 where
  pub version : Bytes
  pub sequence : Bytes
  pub source_chain_id : Bytes
  pub source_address : Bytes
  pub dest_chain_id : Bytes
  pub destination : List Bytes
  pub sender : Bytes
  pub token : List Bytes
  pub amount : Bytes
  pub receiver : List Bytes
  pub height : Bytes

abbrev pub from_height : PacketWords → List Bytes
from_height w = codes "height" ∷ w.height ∷ []

abbrev pub from_amount : PacketWords → List Bytes
from_amount w = codes "amount" ∷ w.amount ∷ codes "receiver_address" ∷ (w.receiver ++ from_height w)

abbrev pub from_message : PacketWords → List Bytes
from_message w =
    codes "message"
    ∷ codes "sender_address"
    ∷ w.sender
    ∷ codes "dest_token_address"
    ∷ (w.token ++ from_amount w)

abbrev pub from_destination : PacketWords → List Bytes
from_destination w =
    codes "destination"
    ∷ codes "chain_id"
    ∷ w.dest_chain_id
    ∷ codes "addr"
    ∷ (w.destination ++ from_message w)

abbrev pub from_source : PacketWords → List Bytes
from_source w =
    codes "source"
    ∷ codes "chain_id"
    ∷ w.source_chain_id
    ∷ codes "addr"
    ∷ w.source_address
    ∷ from_destination w

abbrev pub packet_words : PacketWords → List Bytes
packet_words w = codes "version" ∷ w.version ∷ codes "sequence" ∷ w.sequence ∷ from_source w

pub record IsPacket (w : PacketWords) : Type 0 where
  pub version : IsQuiet w.version
  pub sequence : IsQuiet w.sequence
  pub source_chain_id : IsQuiet w.source_chain_id
  pub source_address : IsQuiet w.source_address
  pub dest_chain_id : IsQuiet w.dest_chain_id
  pub destination : All IsQuiet w.destination
  pub destination_length : length w.destination ≡ 32
  pub sender : IsQuiet w.sender
  pub token : All IsQuiet w.token
  pub token_length : length w.token ≡ 32
  pub amount : IsQuiet w.amount
  pub receiver : All IsQuiet w.receiver
  pub receiver_length : length w.receiver ≡ 32
  pub height : IsQuiet w.height

abbrev pub packet_of : PacketWords → AleoPacket
packet_of w = record {
  version = w.version;
  source = record { chain_id = w.source_chain_id; address = w.source_address };
  sequence = w.sequence;
  destination = record { chain_id = w.dest_chain_id; address = join b' ' w.destination };
  message = record {
    token = join b' ' w.token;
    receiver = join b' ' w.receiver;
    amount = w.amount;
    sender = w.sender;
  };
  height = w.height;
}

module _ (w : PacketWords) (h : IsPacket w) where
  fields-from_height :
      (p : AleoPacket) → fields (from_height w) p ≡ ok (record p { height = w.height })
  unfolding fields eqb
  fields-from_height p = fields_quiet w.height [] (record p { height = w.height }) h.height

  -- The names inside of the message are none of the outer names.
  skip_message :
      (p : AleoPacket)
      → fields
          (codes "sender_address"
            ∷ w.sender
            ∷ codes "dest_token_address"
            ∷ (w.token ++ from_amount w))
          p
        ≡ fields (from_height w) p
  unfolding fields eqb
  skip_message p =
      fields_quiet w.sender (codes "dest_token_address" ∷ (w.token ++ from_amount w)) p h.sender
      ∙ fields_all_quiet w.token (from_amount w) p h.token
      ∙ fields_quiet w.amount (codes "receiver_address" ∷ (w.receiver ++ from_height w)) p h.amount
      ∙ fields_all_quiet w.receiver (from_height w) p h.receiver

  abbrev with_message : AleoPacket → AleoPacket
  with_message p = record p { message = (packet_of w).message }

  fields-from_message :
      (p : AleoPacket)
      → fields (from_message w) p
        ≡ ok (record p { message = (packet_of w).message; height = w.height })
  fields-from_message p =
      let inner : for_each message_field 70
            (codes "sender_address"
              ∷ w.sender
              ∷ codes "dest_token_address"
              ∷ (w.token ++ from_amount w))
            p
          ≡ ok (with_message p) =
        message_lem w.sender w.amount w.token w.receiver (from_height w) h.sender h.amount h.token
          h.receiver h.token_length h.receiver_length p in
      unfold fields eqb in
      rw inner (skip_message (with_message p) ∙ fields-from_height (with_message p))

  abbrev with_destination : AleoPacket → AleoPacket
  with_destination p = record p { destination = (packet_of w).destination }

  fields-from_destination :
      (p : AleoPacket)
      → fields (from_destination w) p
        ≡ ok (record p {
          destination = (packet_of w).destination;
          message = (packet_of w).message;
          height = w.height;
        })
  fields-from_destination p =
      let inner : for_each destination_field 35
            (codes "chain_id" ∷ w.dest_chain_id ∷ codes "addr" ∷ (w.destination ++ from_message w))
            p
          ≡ ok (with_destination p) =
        destination_lem w.dest_chain_id w.destination (from_message w) p h.dest_chain_id
          h.destination h.destination_length in
      unfold fields eqb in
      rw inner (
        fields_quiet w.dest_chain_id (codes "addr" ∷ (w.destination ++ from_message w))
          (with_destination p) h.dest_chain_id
        ∙ fields_all_quiet w.destination (from_message w) (with_destination p) h.destination
        ∙ fields-from_message (with_destination p))

  abbrev with_source : AleoPacket → AleoPacket
  with_source p = record p { source = (packet_of w).source }

  fields-from_source :
      (p : AleoPacket)
      → fields (from_source w) p
        ≡ ok (record p {
          source = (packet_of w).source;
          destination = (packet_of w).destination;
          message = (packet_of w).message;
          height = w.height;
        })
  fields-from_source p =
      let inner : for_each source_field 4
            (codes "chain_id"
              ∷ w.source_chain_id
              ∷ codes "addr"
              ∷ w.source_address
              ∷ from_destination w)
            p
          ≡ ok (with_source p) =
        source_lem w.source_chain_id w.source_address (from_destination w) p h.source_chain_id
          h.source_address in
      unfold fields eqb in
      rw inner (
        fields_quiet w.source_chain_id (codes "addr" ∷ w.source_address ∷ from_destination w)
          (with_source p) h.source_chain_id
        ∙ fields_quiet w.source_address (from_destination w) (with_source p) h.source_address
        ∙ fields-from_destination (with_source p))

  fields-packet_words : fields (packet_words w) no_packet ≡ ok (packet_of w)
  unfolding fields eqb
  fields-packet_words =
      let p : AleoPacket = record no_packet { version = w.version } in
      let q : AleoPacket = record p { sequence = w.sequence } in
      fields_quiet w.version (codes "sequence" ∷ w.sequence ∷ from_source w) p h.version
      ∙ fields_quiet w.sequence (from_source w) q h.sequence
      ∙ fields-from_source q

occurs-append : (k : Bytes) (vs ws : List Bytes) → occurs k ws ≡ true → occurs k (vs ++ ws) ≡ true
occurs-append k [] ws h = h
occurs-append k (v ∷ vs) ws h = ground (arith, occurs-append k vs ws)

module _ (w : PacketWords) where
  occurs-from_height : occurs (codes "height") (from_message w) ≡ true
  unfolding eqb
  occurs-from_height =
      let k : Bytes = codes "height" in
      occurs-append k
        (codes "message" ∷ codes "sender_address" ∷ w.sender ∷ codes "dest_token_address" ∷ [])
        (w.token ++ from_amount w)
        (occurs-append k w.token (from_amount w) (
          occurs-append k (codes "amount" ∷ w.amount ∷ codes "receiver_address" ∷ [])
            (w.receiver ++ from_height w) (occurs-append k w.receiver (from_height w) refl)))

  occurs-source : (k : Bytes) → occurs k (from_source w) ≡ true → occurs k (packet_words w) ≡ true
  occurs-source k e =
      occurs-append k (codes "version" ∷ w.version ∷ codes "sequence" ∷ w.sequence ∷ [])
        (from_source w) e

  occurs-destination :
      (k : Bytes) → occurs k (from_destination w) ≡ true → occurs k (packet_words w) ≡ true
  occurs-destination k e = occurs-source k (
      occurs-append k
        (codes "source"
          ∷ codes "chain_id"
          ∷ w.source_chain_id
          ∷ codes "addr"
          ∷ w.source_address
          ∷ [])
        (from_destination w) e)

  occurs-message : (k : Bytes) → occurs k (from_message w) ≡ true → occurs k (packet_words w) ≡ true
  occurs-message k e = occurs-destination k (
      occurs-append k (codes "destination" ∷ codes "chain_id" ∷ w.dest_chain_id ∷ codes "addr" ∷ [])
        (w.destination ++ from_message w) (occurs-append k w.destination (from_message w) e))

  -- No required field is missing.
  missing-packet_words : missing (packet_words w) required_fields ≡ []
  unfolding missing eqb
  missing-packet_words =
      let sequence : occurs (codes "sequence") (packet_words w) ≡ true =
        occurs-append (codes "sequence") (codes "version" ∷ w.version ∷ [])
          (codes "sequence" ∷ w.sequence ∷ from_source w) refl in
      let source : occurs (codes "source") (packet_words w) ≡ true =
        occurs-source (codes "source") refl in
      let destination : occurs (codes "destination") (packet_words w) ≡ true =
        occurs-destination (codes "destination") refl in
      let message : occurs (codes "message") (packet_words w) ≡ true =
        occurs-message (codes "message") refl in
      let height : occurs (codes "height") (packet_words w) ≡ true =
        occurs-message (codes "height") occurs-from_height in
      rw (sequence, source, destination, message, height)

-- The words of a packet make that packet.
pub checked-packet_words :
    (w : PacketWords)
    → IsPacket w
    → checked (missing (packet_words w) required_fields) (fields (packet_words w) no_packet)
      ≡ ok (packet_of w)
checked-packet_words w h = rw (missing-packet_words w, fields-packet_words w h)
