-- ===== src/Relayer.antt =====
-- The relayer crate: what may be moved from Cosmos to Ethereum, and in which order.
pub mod LogicCalls
pub mod LogicMarket
pub mod LogicPick
pub mod LogicRelay
pub mod Valsets
pub mod Newest
pub mod Batches
pub mod Pending
pub mod Submit
pub mod Due
pub mod Order
pub mod FindLatest
pub mod Last
pub mod ValsetRelay
pub mod Update
mod Tests
mod LogicTests
mod SubmitTests
mod LastTests
mod UpdateTests
