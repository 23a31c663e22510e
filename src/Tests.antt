-- ===== src/Tests.antt =====
-- Runs of the model at concrete inputs, and the theorems at inputs that meet their hypotheses.
mod Link
mod Master
mod Responder
mod Health
mod Exchange
mod L3
mod Descriptor
mod Payload
mod Core
