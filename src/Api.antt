-- ===== src/Api.antt =====
-- src/vfobs/api: the HTTP endpoints, over the interface of the repository.
pub mod Dto
pub mod Reads
pub mod Query
pub mod Cost
pub mod Auth
pub mod ReadAuth
pub mod Body
pub mod Health
pub mod Events
pub mod Ingest
pub mod Routes
