-- ===== src/Pairing.antt =====
-- crates/protocol/src/pairing.rs: the signed messages of a pairing ceremony.
pub mod Types
pub mod Postcard
pub mod Checks
pub mod Request
pub mod Offer
pub mod Decision
pub mod Words
pub mod Windows
pub mod Signed
pub mod Ceremony
pub mod Completion
pub mod Comparison
pub mod Deciding
pub mod Policy
pub mod Canonical
pub mod Texts
pub mod Tests
