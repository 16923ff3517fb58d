-- ===== src/Events.antt =====
-- The event model: src/vfobs/events.
pub mod Platform
pub mod Classes
pub mod Schemas
pub mod Namespaces
pub mod Base
pub mod Values
pub mod Factory
pub mod Json
pub mod Fields
