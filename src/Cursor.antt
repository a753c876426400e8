-- ===== src/Cursor.antt =====
-- crates/protocol/src/cursor.rs: the codec of cursor batches.
pub mod Format
pub mod Reader
pub mod Decode
mod Moves
mod Spans
pub mod Shapes
pub mod Valid
mod ValidBitmap
pub mod ValidBatch
pub mod RoundTrip
pub mod EventImages
pub mod Canonical
mod Tests
