-- ===== src/Relay.antt =====
-- attestor/chainService/relay: screening, signing and delivering the packets of every chain.
pub mod Web
pub mod Digest
pub mod Screener
pub mod Signer
pub mod SignerService
pub mod Collector
pub mod Process
pub mod Feeder
pub mod Restart
pub mod Start
