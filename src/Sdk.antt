-- ===== src/Sdk.antt =====
-- sdk/python/vfobs_sdk: the client library.
pub mod ReadClient
pub mod Watch
pub mod Emitter
pub mod Events
