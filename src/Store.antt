-- ===== src/Store.antt =====
-- attestor/chainService/store.
pub mod Key
pub mod Bolt
pub mod Ops
pub mod Json
pub mod Db
pub mod BaseSeq
pub mod Retry
pub mod RetryList
