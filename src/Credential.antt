-- ===== src/Credential.antt =====
-- crates/protocol/src/credential.rs: certificate authorities, role credentials and revocation lists.
pub mod Types
pub mod Postcard
pub mod Authority
pub mod Request
pub mod Revocation
pub mod Issued
pub mod Searching
pub mod Sorting
pub mod Windows
pub mod Issuance
pub mod Issuing
pub mod Revoking
pub mod Authorized
pub mod Canonical
pub mod Texts
mod Tests
