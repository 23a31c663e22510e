-- ===== src/Tests/Core.antt =====
-- core/: a new engine, and backplane 2 whose three slots hold two modules.
use omgp.Base.{ℕ, ◌+◌, ◌≡◌, refl, [], ◌∷◌, true, false}
use omgp.Link.Wire.{Wire}
use omgp.L3.Types.{BpSlotMapResp}
use omgp.Core.Types.{discovered, not_discovered, ok, node_removed, DescChunkItem}
use omgp.Core.Ring.{new_ring, push, pop}
use omgp.Core.Ring.Queue.{pushed, popped, answers, queue_answers, answers-queue_answers}
use omgp.Core.Engine.{CoreEngine, new_engine, no_chunk, with_node, enqueue_lifecycle}
use omgp.Core.Descriptors.{release_descriptor, release_at}
use omgp.Core.Slots.{
  assigned_at, reconcile_slot_map, reconcile_at, reconcile_named, reconcile_rest, reconcile_slot,
  vacate, assign, free_node, remove, forget_node, set_exhaustion_reported,
}
use omgp.Core.Slots.Assigned.{IsAssigned}
use omgp.Core.Slots.Preserved.{new_engine-IsAssigned}
use omgp.Core.Schedule.{run_superframe}
use omgp.Core.Kept.Superframe.{run_superframe-IsAssigned}
use omgp.Core.Params.{Callbacks, set_param, claim_request_id, free_id, queue_get, get_param}
use omgp.Core.Params.Outcome.{Outcome}
use omgp.Core.Engine.{no_delivery}
use omgp.Core.Types.{LifecycleEvent}

abbrev quiet : Wire
quiet = record { rx = []; sent = []; bit_rate = 1000000 }

abbrev start : CoreEngine
start = new_engine quiet 0

abbrev two_of_three : BpSlotMapResp
two_of_three = record { slot_count = 3; occupied = 5 ∷ []; changed = 5 ∷ [] }

run_superframe-IsAssigned_example : IsAssigned (run_superframe 5 start)
run_superframe-IsAssigned_example =
    run_superframe-IsAssigned 5 start (new_engine-IsAssigned quiet 0)

-- Slots 0 and 2 of backplane 2 get the first two ids.
two_ids :
    (assigned_at (reconcile_slot_map 2 two_of_three start) 1 0 ≡ 0x10)
    × (assigned_at (reconcile_slot_map 2 two_of_three start) 1 1 ≡ 0)
    × (assigned_at (reconcile_slot_map 2 two_of_three start) 1 2 ≡ 0x11)
unfolding reconcile_at reconcile_named reconcile_rest reconcile_slot vacate assign free_node remove
    forget_node set_exhaustion_reported release_descriptor release_at enqueue_lifecycle push
two_ids = (refl, refl, refl)

abbrev chunk : DescChunkItem
chunk = record { node_id = 0x10; offset = 56 }

answers-queue_answers_example :
    answers (pushed chunk ∷ popped no_chunk ∷ popped no_chunk ∷ []) (new_ring no_chunk)
    ≡ queue_answers (pushed chunk ∷ popped no_chunk ∷ popped no_chunk ∷ []) []
answers-queue_answers_example =
    answers-queue_answers (pushed chunk ∷ popped no_chunk ∷ popped no_chunk ∷ []) no_chunk

ring_run :
    answers (pushed chunk ∷ popped no_chunk ∷ popped no_chunk ∷ []) (new_ring no_chunk)
    ≡ (true, []) ∷ (true, chunk ∷ []) ∷ (false, no_chunk ∷ []) ∷ []
unfolding push pop
ring_run = refl

-- No parameter of a module that has not told what it is.
too_early : (set_param 0x10 1 0xff 7 start).0 ≡ not_discovered
unfolding set_param
too_early = refl

-- The first module has told what it is.
abbrev ready : CoreEngine
ready = with_node 0 (λ n. record n { in_use = true; discovery = discovered }) start

first_id : (get_param 0x10 1 0xff 9 ready).0 ≡ ok
unfolding get_param claim_request_id free_id queue_get push
first_id = refl

abbrev gone : LifecycleEvent
gone = record { kind = node_removed; node_id = 0x10; slot = 2 }

-- One notice waits, and the result of request 4.
abbrev waiting : CoreEngine
waiting = record start {
  pending_lifecycle = (push gone start.pending_lifecycle).1;
  pending_param_results = (push (record no_delivery { id = 4 }) start.pending_param_results).1;
}

abbrev counting : Callbacks ℕ
counting d n c = (n + 1, c)
