-- ===== src/Link/Exchange.antt =====
-- link/master.cpp and link/responder.cpp together: what a node makes of the host's request, and the
-- host of the node's answer.
use omgp.Link.Master.{Master}
use omgp.Link.Master.Invariant as MasterInvariant
use omgp.Link.Responder.{Responder}
use omgp.Link.Responder.Invariant as ResponderInvariant
