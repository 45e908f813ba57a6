-- ===== src/Ethereum.antt =====
-- attestor/chainService/chain/ethereum/client.go: the client of an Ethereum source chain.
pub mod Bridge
pub mod Client
pub mod Feed
pub mod Coverage
pub mod Rounds
pub mod Laws
pub mod Fuel
pub mod Delivery
