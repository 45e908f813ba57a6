-- ===== src/Tests.antt =====
-- Tests and witnesses: the code and the theorems at concrete inputs.
pub mod Journal
pub mod Data
pub mod Stores
pub mod StoreWitnesses
pub mod HistoryWitnesses
pub mod AleoPacket
pub mod AleoWitnesses
pub mod EthereumWitnesses
pub mod DeliveryWitnesses
pub mod SigningWitnesses
pub mod SignerWitnesses
pub mod StartWitnesses
pub mod RelayWitnesses
pub mod CollectorWitnesses
pub mod ConfigWitnesses
pub mod ProxyWitnesses
pub mod ServiceWitnesses
