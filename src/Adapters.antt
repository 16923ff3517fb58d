-- ===== src/Adapters.antt =====
-- src/vfobs/adapters: what vfobs asks of vtaskforge.
pub mod Dto
pub mod Vtf
pub mod Validate
pub mod Stub
