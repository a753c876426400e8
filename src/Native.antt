-- ===== src/Native.antt =====
-- crates/protocol/src/native.rs, with the identities of crates/protocol/src/identity.rs and the key
-- envelopes of crates/protocol/src/envelope.rs: signed and encrypted stream objects.
pub mod Types
pub mod EnvelopeTypes
pub mod External
pub mod Identity
pub mod H264
pub mod Header
pub mod Object
pub mod Descriptor
pub mod Envelope
pub mod Group
pub mod Canonical
pub mod Enveloping
pub mod Guard
pub mod Inversions
pub mod Sealing
pub mod Nonces
pub mod Keyframe
pub mod Replay
pub mod AnnexB
pub mod Tests
pub mod Formats
mod Serializer
mod CodecTests
