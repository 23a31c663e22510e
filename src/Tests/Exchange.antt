-- ===== src/Tests/Exchange.antt =====
-- The host of Tests/Master and node 3 of Tests/Responder on one wire.
