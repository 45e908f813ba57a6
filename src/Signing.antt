-- ===== src/Signing.antt =====
-- The signing service (attestor/signingService).
pub mod Ethereum
pub mod Preimage
pub mod Collision
pub mod Aleo
pub mod Service
pub mod Start
pub mod KeyLaws
pub mod StartLaws
pub mod Laws
