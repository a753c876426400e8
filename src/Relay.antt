-- ===== src/Relay.antt =====
-- crates/relay/src/native_store.rs: the relay's durable store of opaque groups, objects and envelopes.
pub mod Rows
pub mod Statements
pub mod Retention
pub mod Groups
pub mod Store
pub mod Upkeep
pub mod Queries
pub mod Selections
pub mod Rowsets
pub mod Loop
pub mod Settling
pub mod Causes
pub mod Evicting
pub mod Streams
pub mod Appended
pub mod Appending
pub mod Objects
pub mod Storing
pub mod History
pub mod Marks
pub mod Sequences
pub mod Quota
pub mod Bounded
pub mod Limits
pub mod Anchors
mod Tests
