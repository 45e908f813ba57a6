-- ===== src/Lib.antt =====
-- The attestor of the Verulink bridge (attestor/): it watches a chain for the packets of the bridge
-- contract, screens and signs each, and delivers the signature to the db-service.
--
-- The parts, and the files that model them:
--   Chain: packets and their fields (attestor/chainService/chain/types.go), with the integers of
--     `math/big` in Chain/BigInt.
--   Store: the key-value store (attestor/chainService/store): Store/Key is constraint.go, Store/Ops
--     is bolt.go and Store/Db is db.go. bbolt itself is the record `Bolt` of Store/Bolt, JSON is the
--     record `Codec` of Store/Json. Store/BaseSeq states what a base-sequence-number namespace
--     holds as an ascending list, and Store/Retry and Store/RetryList what a retry namespace holds.
--     Store/BaseSeq/History lets deliveries, scans and the goroutines of a pruning interleave.
--   Ethereum: the ethereum client (attestor/chainService/chain/ethereum/client.go). Ethereum/Bridge
--     reads the logs, Ethereum/Client has the client's state, Ethereum/Feed the loops.
--   Aleo: the aleo client (attestor/chainService/chain/aleo). Aleo/Fields and Aleo/Parse are
--     utils.go, Aleo/Client and Aleo/Feed are client.go with rpc/rpc.go; Aleo/Address,
--     Aleo/Cut, Aleo/Labelled, Aleo/Loop, Aleo/Words and Aleo/Amounts are about the texts that
--     utils.go reads.
--   Relay: the way of a packet (attestor/chainService/relay): Relay/Process, Relay/Feeder
--     and Relay/Start are relays.go, Relay/Screener, Relay/Signer and Relay/Collector are the
--     services that it calls.
--     Relay/SignerService puts the client of the signing service and its handler together.
--     Relay/Process/Requests is about the packets that the db-service asks for, and
--     Relay/Restart is the loop that starts the feeds, and starts them again after a panic; it runs
--     in a goroutine of its own beside what Relay/Start models.
--   Config: the configuration (attestor/chainService/config/config.go): Config/Init is `InitConfig`,
--     and its validation of the chains stands in Config.
--   Signing: the signing service (attestor/signingService): Signing/Ethereum and Signing/Aleo hash and
--     sign, Signing/Service is the handler, Signing/Start is config/config.go and what main.go does
--     before it serves.
--   Service: the start of the chain service (attestor/chainService/main.go), which puts the
--     configuration, the logger, the store and the relay together.
--   Delivery: a client, its channels, the relay and the store together, as steps. The client enters
--     as the interface of Delivery/Manager, which Ethereum/Delivery and Aleo/Delivery fill.
--   Proxy: the proxy in front of an attestor (attestor/proxy/main.go), which prints packets in the
--     form of the aleo node; Proxy/RoundTrip and Proxy/Measured put it and the aleo client together.
--   Base: shared helpers. Tests: concrete stores, nodes and services, and the theorems at them.
--
-- How they interact. A client sends packets to a channel; the relay screens, signs and delivers
-- each, and answers on the channel for completed or for failed packets of the client's chain. The
-- client records completed packets by their sequence numbers and keeps failed ones in its store;
-- from time to time it prunes the recorded numbers, asks again for the packets of a gap, and sends
-- the failed packets again.
--
-- The conventions. A Go function that returns an error is a function into `Result`, which has a
-- third case for panics. The file of the store, the client's state and the package variables are
-- passed explicitly. A goroutine's endless loop is a function for one round of it (one tick of a
-- ticker, one packet of a channel), or over a list of rounds; the consumer's pool, the starts of the
-- feeds, the life of a namespace and the way of a packet are step relations, in which anything that
-- may happen next is a step. Strings that JSON does not write as they are, those that are not valid
-- UTF-8, are excluded by hypotheses. uint64 arithmetic has its `% 2 ^ 64`; int64 heights go through their two's complement.
-- Durations are counted in nanoseconds. A map is the list of its pairs.
--
-- Fuel. The loop over windows of 101 blocks takes fuel; the coverage theorem asks for more windows
-- than there are blocks left divided by 101. The loop of a pruning tick has one unit for each block
-- of its range, and more would change nothing. The answers of a node to repeated questions are a
-- list, whose end is where a run is observed.
--
-- Not modelled: the counters of the metrics and the writing of the log, signals and flags, the
-- generated contract bindings and the connections to nodes, and the contracts in other languages.
-- HTTP, SHA-256, Keccak-256, ECDSA and the executable `ahs` are parameters.
pub mod Base
pub mod Chain
pub mod Store
pub mod Config
pub mod Ethereum
pub mod Aleo
pub mod Relay
pub mod Signing
pub mod Delivery
pub mod Service
pub mod Proxy
pub mod Tests
