-- ===== src/Core.antt =====
-- The host's engine, core/: discovery of the modules behind the backplanes, their descriptors, and the
-- requests and notices of the application, over the link layer's Master and HealthTracker.
pub mod Types
pub mod Ring
pub mod Engine
pub mod Descriptors
pub mod Slots
pub mod Params
pub mod Requests
pub mod Answers
pub mod Schedule
pub mod Kept
