-- ===== src/Repository.antt =====
-- src/vfobs/repositories/event_repository.py: the event store.
pub mod Model
pub mod Log
pub mod Interface
pub mod Memory
pub mod Postgres
