-- ===== src/Link/Responder/Retries.antt =====
-- A retried request in link/responder.cpp: the handler is asked at most once.
use omgp.Link.Responder.{Responder}
