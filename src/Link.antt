-- ===== src/Link.antt =====
-- link/: the trunk layer L2.
pub mod Crc
pub mod Types
pub mod Frame
pub mod Deframer
pub mod Wire
pub mod Master
pub mod Held
pub mod Responder
pub mod Exchange
pub mod Health
