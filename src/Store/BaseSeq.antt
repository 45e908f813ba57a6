-- ===== src/Store/BaseSeq.antt =====
-- The abstract view of a base-sequence-number namespace: the delivered sequence numbers with their
-- heights, in ascending order.
pub mod Encoding
pub mod Refinement
pub mod Gap
pub mod Prune
pub mod DeleteOrder
pub mod Recorded
pub mod Pending
pub mod History
