-- ===== src/Core/Params.antt =====
-- core/core_engine.cpp: the parameter requests of the application, and the delivery of what it is told.
pub mod Drained
pub mod Outcome
use omgp.Base.{
  ℕ, zero, suc, ◌+◌, ◌-◌, Bool, true, false, not, ◌&&◌, ◌||◌, List, [], ◌∷◌, Option, none, some,
  ltb, ◌==◌, if◌then◌else◌, modify,
}
use omgp.Base.Words.{inc32}
use omgp.L3.Descriptor.{param_value_max}
use omgp.Core.Ring.{is_full, push, pop}
use omgp.Core.Types.{
  CoreStatus, ok, queue_full, not_discovered, request_id_reused, invalid_value, ParamResult, set_op,
  get_op, LifecycleEvent,
}
use omgp.Core.Engine.{CoreEngine, node_index, node_at, no_lifecycle, no_delivery}
use omgp.Core.Descriptors.{is_discovered}

abbrev pub param_target_ready : ℕ → CoreEngine → Bool
param_target_ready node_id c = elim (node_index node_id) [
  | none ↦ false
  | some idx ↦ (node_at c idx).in_use && is_discovered (node_at c idx).discovery
]

-- The first flag that is down, `idx` the index of the first in the list.
unfoldable pub free_id : ℕ → List Bool → Option ℕ
free_id idx [] = none
free_id idx (used ∷ flags) = let rest = free_id (idx + 1) flags in if used then rest else some idx

unfoldable pub claim_request_id : CoreEngine → Option ℕ × CoreEngine
claim_request_id c =
    let id = free_id 0 c.request_id_used in
    elim id [
      | none ↦ (none, c)
      | some i ↦ (some i, record c { request_id_used = modify i (λ _. true) c.request_id_used })
    ]

-- modify() passes over an id that is out of bounds.
unfoldable pub release_request_id : ℕ → CoreEngine → CoreEngine
release_request_id id c = record c { request_id_used = modify id (λ _. false) c.request_id_used }

unfoldable pub set_param : ℕ → ℕ → ℕ → ℕ → CoreEngine → CoreStatus × CoreEngine
set_param node_id param_id scope value c =
    let (taken, ring) =
      push
        (record {
          node_id = node_id;
          kind = set_op;
          param_id = param_id;
          scope = scope;
          value = value;
          request_id = 0;
        })
        c.param_queue in
    if not (param_target_ready node_id c)
    then (not_discovered, c)
    else if ltb param_value_max value
    then (invalid_value, c)
    else if taken
    then (ok, record c { param_queue = ring })
    else (queue_full, c)

-- The request is queued under the id that was claimed, if one was.
unfoldable pub queue_get : ℕ → ℕ → ℕ → ℕ → Option ℕ → CoreEngine → CoreStatus × CoreEngine × ℕ
queue_get node_id param_id scope out_id none c = (request_id_reused, c, out_id)
queue_get node_id param_id scope out_id (some id) c =
    let (taken, ring) =
      push
        (record {
          node_id = node_id;
          kind = get_op;
          param_id = param_id;
          scope = scope;
          value = 0;
          request_id = id;
        })
        c.param_queue in
    if taken
    then (ok, record c { param_queue = ring }, id)
    else (queue_full, release_request_id id c, out_id)

-- `out_id` is what the output argument holds before.
unfoldable pub get_param : ℕ → ℕ → ℕ → ℕ → CoreEngine → CoreStatus × CoreEngine × ℕ
get_param node_id param_id scope out_id c =
    let (claimed, c1) = claim_request_id c in
    if not (param_target_ready node_id c)
    then (not_discovered, c, out_id)
    else if is_full c.param_queue
    then (queue_full, c, out_id)
    else queue_get node_id param_id scope out_id claimed c1

unfoldable pub enqueue_param_result : ℕ → ParamResult → CoreEngine → Bool × CoreEngine
enqueue_param_result id result c =
    let (taken, ring) = push (record { id = id; result = result }) c.pending_param_results in
    if taken
    then (true, record c { pending_param_results = ring })
    else (false, record c { dropped_deliveries = inc32 c.dropped_deliveries })

-- What a callback is told.
pub data Delivery : Type 0 where
  on_lifecycle : LifecycleEvent → Delivery
  on_param_result : ℕ → ParamResult → Delivery

-- What the loop of drain_callbacks() takes next, with the budgets that are left and the engine just
-- before the callback; nothing when the budgets are spent or a ring has nothing more.
unfoldable pub next_delivery : ℕ → ℕ → CoreEngine → Option (Delivery × ℕ × ℕ × CoreEngine)
next_delivery lifecycle_budget param_budget c =
    let (got, results, delivery) = pop c.pending_param_results no_delivery in
    let (heard, events, ev) = pop c.pending_lifecycle no_lifecycle in
    if lifecycle_budget == 0 && param_budget == 0
    then none
    else if ltb 0 param_budget && (c.next_is_param || lifecycle_budget == 0)
    then (if got
        then some (
          on_param_result delivery.id delivery.result,
          lifecycle_budget,
          param_budget - 1,
          record (release_request_id delivery.id (record c { pending_param_results = results })) {
            next_is_param = false;
          },
        )
        else none)
    else if heard
    then some (
      on_lifecycle ev,
      lifecycle_budget - 1,
      param_budget,
      record c { pending_lifecycle = events; next_is_param = true },
    )
    else none

-- The application: what its callbacks make of its state and, by the calls they make, of the engine.
abbrev pub Callbacks : Type 0 → Type 0
Callbacks App = Delivery → App → CoreEngine → App × CoreEngine

module _ {App : Type 0} (callbacks : Callbacks App) where
  -- The budgets are what the rings held at the start.
  unfoldable pub drain_loop : ℕ → ℕ → ℕ → App → CoreEngine → List Delivery × App × CoreEngine
  drain_loop zero lifecycle_budget param_budget app c = ([], app, c)
  drain_loop (suc remaining) lifecycle_budget param_budget app c =
      elim (next_delivery lifecycle_budget param_budget c) [
        | none ↦ ([], app, c)
        | some (d, lifecycle_budget', param_budget', c1) ↦
            let (app1, c2) = callbacks d app c1 in
            let (ds, app2, c3) = drain_loop remaining lifecycle_budget' param_budget' app1 c2 in
            (d ∷ ds, app2, c3)
      ]

  unfoldable pub drain_callbacks : ℕ → App → CoreEngine → List Delivery × App × CoreEngine
  drain_callbacks max_deliveries app c =
      if c.draining
      then ([], app, c)
      else (let (ds, app', c') =
            drain_loop max_deliveries c.pending_lifecycle.count c.pending_param_results.count app
              (record c { draining = true }) in
          (ds, app', record c' { draining = false }))
