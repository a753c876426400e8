-- ===== src/PairingStore.antt =====
-- crates/relay/src/pairing_store.rs: the relay's durable queue of pairing messages.
pub mod Address
pub mod Rows
pub mod Statements
pub mod Store
pub mod Inbox
pub mod Tables
pub mod Lookups
pub mod Effects
pub mod Queueing
pub mod Transactions
pub mod Calls
pub mod Ceremonies
pub mod Sound
pub mod Stages
pub mod Bounds
pub mod Fresh
pub mod Listings
pub mod Waiting
pub mod Delivery
mod Tests
