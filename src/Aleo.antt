-- ===== src/Aleo.antt =====
-- The client of the aleo chain (attestor/chainService/chain/aleo).
pub mod Numerals
pub mod Fields
pub mod Parse
pub mod Digits
pub mod Address
pub mod Cut
pub mod Labelled
pub mod Loop
pub mod Words
pub mod Amounts
pub mod Client
pub mod Feed
pub mod Laws
pub mod Delivery
