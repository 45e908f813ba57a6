-- ===== src/Relay/Digest.antt =====
-- The key of a packet's screening status: `GetSha256Hash` of attestor/chainService/chain/types.go.
use verulink.Base.{◌++◌, ◌≡◌, Bytes, codes, length}
use verulink.Chain.{Packet, NetworkAddress, Message}
use verulink.Chain.BigInt.{itoa, big_string}

-- `fmt.Sprint` sets a space between two operands if neither is a string.
unfoldable pub network_address_string : NetworkAddress → Bytes
network_address_string n = big_string n.chain_id ++ n.address

unfoldable pub message_string : Message → Bytes
message_string m =
    m.dest_token_address ++ (m.sender_address ++ (big_string m.amount ++ m.receiver_address))

abbrev pub spaced : Bytes → Bytes → Bytes
spaced s t = s ++ (codes " " ++ t)

unfoldable pub packet_text : Packet → Bytes
unfolding network_address_string message_string
packet_text p = spaced (itoa p.version) (
    spaced (network_address_string p.source) (
      spaced (network_address_string p.destination)
        (spaced (itoa p.sequence) (spaced (message_string p.message) (itoa p.height)))))

-- The hexadecimal digits of SHA-256, which Go's library computes.
pub record Digest : Type 0 where
  pub sha256_hex : Bytes → Bytes
  pub length-sha256_hex : (s : Bytes) → length (sha256_hex s) ≡ 64

unfoldable pub get_sha256_hash : Digest → Packet → Bytes
unfolding packet_text
get_sha256_hash d p = d.sha256_hex (packet_text p)
