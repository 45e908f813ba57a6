-- ===== src/Ethereum/Bridge.antt =====
-- The bridge contract as the client reads it. The node, the generated contract binding and the
-- printing of addresses are parameters.
use verulink.Base.{ℕ, ◌%◌, ◌^◌, List, [], ◌∷◌, Bytes, Result, ok, ◌>>=◌, false}
use verulink.Chain.{Packet}
use verulink.Chain.BigInt.{pos}

-- `PacketLibraryOutPacket` of the contract binding; its numbers are of 256 bits.
pub record OutPacket : Type 0 where
  pub version : ℕ
  pub sequence : ℕ
  pub source_chain_id : ℕ
  pub source_addr : Bytes
  pub dest_chain_id : ℕ
  pub dest_addr : Bytes
  pub sender_address : Bytes
  pub dest_token_address : Bytes
  pub amount : ℕ
  pub receiver_address : Bytes
  pub height : ℕ

pub record Bridge : Type 1 where
  pub Log : Type 0
  -- `eth_getLogs` from one height to another, both included, for the contract and the topic.
  pub filter_logs : ℕ → ℕ → Result (List Log)
  pub parse_packet_dispatched : Log → Result OutPacket
  -- `Address.Hex`.
  pub hex : Bytes → Bytes

-- The numbers that `Uint64` and `uint8` cut off keep their low bits.
unfoldable pub common_packet : (Bytes → Bytes) → OutPacket → Packet
common_packet hex p = record {
  version = p.version % 2 ^ 64 % 2 ^ 8;
  sequence = p.sequence % 2 ^ 64;
  destination = record { chain_id = pos p.dest_chain_id; address = p.dest_addr };
  source = record { chain_id = pos p.source_chain_id; address = hex p.source_addr };
  message = record {
    dest_token_address = p.dest_token_address;
    receiver_address = p.receiver_address;
    sender_address = hex p.sender_address;
    amount = pos p.amount;
  };
  height = p.height % 2 ^ 64;
  is_missed = false;
}

module _ (bridge : Bridge) where
  open bridge use {Log, filter_logs, parse_packet_dispatched, hex}

  -- The loop over the logs: the first that does not parse ends it.
  unfoldable pub parse_logs : List Log → Result (List Packet)
  unfolding common_packet
  parse_logs [] = ok []
  parse_logs (l ∷ logs) = do
    dispatched ← parse_packet_dispatched l
    packets ← parse_logs logs
    ok (common_packet hex dispatched ∷ packets)

  unfoldable pub filter_packet_logs : ℕ → ℕ → Result (List Packet)
  unfolding parse_logs
  filter_packet_logs from_height to_height = do
    logs ← filter_logs from_height to_height
    parse_logs logs
