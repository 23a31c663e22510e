-- ===== src/L3/Payload.antt =====
-- l3/l3_payload.hpp and l3/l3_payload.cpp: the payloads of the messages, a codec for each. An encoder
-- returns the bytes it wrote, which are none unless its status is ok. A decoder takes what its output
-- argument held before, and returns what it holds afterwards.
pub mod Checks
pub mod Fixed
pub mod Tails
pub mod Bounds
pub mod Kinds
pub mod Fields
pub mod RoundTrip
pub mod Exact
pub mod Errors
