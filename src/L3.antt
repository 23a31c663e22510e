-- ===== src/L3.antt =====
-- The message layer, l3/: what the payload of a trunk frame carries.
pub mod Types
pub mod Header
pub mod Utf8
pub mod Tlv
pub mod Descriptor
pub mod Payload
