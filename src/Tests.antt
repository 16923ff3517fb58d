-- ===== src/Tests.antt =====
-- Concrete data, and the theorems at concrete inputs.
pub mod Data
pub mod Stored
pub mod Routes
pub mod Served
pub mod Guarded
pub mod Watched
pub mod Emitted
pub mod Codecs
pub mod Tables
pub mod Queried
pub mod Made
pub mod Ingested
pub mod Counted
pub mod Interleaved
pub mod Schemas
