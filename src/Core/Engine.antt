-- ===== src/Core/Engine.antt =====
-- core/core_engine.hpp and core/core_engine.cpp, class CoreEngine: its members, and what its parts share.
-- The engine listens to the HealthTracker: what that notices is heard behind each call of it. The
-- application's callbacks are arguments of the drain; the transcript is the list of the requests made,
-- newest first. The ring event_queue_ is not used by the code.
use omgp.Base.{
  ℕ, ◌+◌, ◌-◌, Bool, true, false, ◌||◌, List, [], ◌∷◌, Option, none, some, ltb, if◌then◌else◌,
  get_or, modify, replicate,
}
use omgp.Base.Words.{inc32}
use omgp.Protocol.{
  max_nodes, addr_module_min, addr_module_max, addr_backplane_min, addr_backplane_max,
  trunk_bit_rate,
}
use omgp.Link.Wire.{Wire}
use omgp.Link.Master.{Master, new_master}
use omgp.Link.Health.Records.{Notice, node_enrolled}
use omgp.Link.Health.Tracker.{HealthTracker, new_tracker}
use omgp.Core.Ring.{Ring, new_ring, push}
use omgp.Core.Types.{
  DiscoveryState, undiscovered, NodeRecord, new_node, BackplaneRecord, new_backplane,
  DescriptorCacheEntry, new_entry, ParamResult, DescChunkItem, ParamOpItem, set_op, LifecycleEvent,
  node_discovered, ParamResultDelivery, SuperframeBudget,
}

pub data Phase : Type 0 where
  poll_phase demand_phase probe_phase closed : Phase

pub data TxKind : Type 0 where
  no_request status_poll slot_map probe identify read_desc : TxKind

pub record TranscriptEntry : Type 0 where
  pub superframe : ℕ
  pub opcode : ℕ
  pub dst : ℕ
  pub node_id : ℕ

pub record CoreEngine : Type 0 where
  pub master : Master
  pub health : HealthTracker
  pub nodes : List NodeRecord
  pub backplanes : List BackplaneRecord
  pub descriptors : List DescriptorCacheEntry
  pub desc_queue : Ring DescChunkItem
  pub param_queue : Ring ParamOpItem
  pub request_id_used : List Bool
  pub pending_lifecycle : Ring LifecycleEvent
  pub pending_param_results : Ring ParamResultDelivery
  pub dropped_deliveries : ℕ
  pub next_is_param : Bool
  pub draining : Bool
  pub budget : SuperframeBudget
  pub superframe : ℕ
  pub superframe_open : Bool
  pub phase : Phase
  pub poll_cursor : ℕ
  pub identify_cursor : ℕ
  pub desc_retry_cursor : ℕ
  pub probe_issued : Bool
  pub demand_issued : Bool
  pub desc_hold : Option DescChunkItem
  pub tx_kind : TxKind
  pub tx_addr : ℕ
  pub tx_node : ℕ
  pub tx_offset : ℕ
  pub tx_issued_us : ℕ
  pub l3_seq : ℕ
  pub wire_rate : ℕ
  pub transcript : List TranscriptEntry

abbrev pub no_chunk : DescChunkItem
no_chunk = record { node_id = 0; offset = 0 }

abbrev pub no_op : ParamOpItem
no_op = record { node_id = 0; kind = set_op; param_id = 0; scope = 0; value = 0; request_id = 0 }

abbrev pub no_lifecycle : LifecycleEvent
no_lifecycle = record { kind = node_discovered; node_id = 0; slot = 0 }

abbrev pub no_result : ParamResult
no_result = record { succeeded = false; value = 0; reason = 0 }

abbrev pub no_delivery : ParamResultDelivery
no_delivery = record { id = 0; result = no_result }

-- `descriptors_[32]`.
abbrev pub descriptor_count : ℕ
descriptor_count = 32

abbrev pub new_engine : Wire → ℕ → CoreEngine
new_engine wire host_addr = record {
  master = new_master wire host_addr;
  health = new_tracker;
  nodes = replicate max_nodes new_node;
  backplanes = replicate (addr_backplane_max - addr_backplane_min + 1) new_backplane;
  descriptors = replicate descriptor_count new_entry;
  desc_queue = new_ring no_chunk;
  param_queue = new_ring no_op;
  request_id_used = replicate max_nodes false;
  pending_lifecycle = new_ring no_lifecycle;
  pending_param_results = new_ring no_delivery;
  dropped_deliveries = 0;
  next_is_param = false;
  draining = false;
  budget = record { period_us = 0; remaining_us = 0 };
  superframe = 0;
  superframe_open = false;
  phase = closed;
  poll_cursor = addr_backplane_min;
  identify_cursor = 0;
  desc_retry_cursor = 0;
  probe_issued = false;
  demand_issued = false;
  desc_hold = none;
  tx_kind = no_request;
  tx_addr = 0;
  tx_node = 0;
  tx_offset = 0;
  tx_issued_us = 0;
  l3_seq = 0;
  wire_rate = trunk_bit_rate;
  transcript = [];
}

-- node_index(), with `none` for kNoNodeIndex.
abbrev pub node_index : ℕ → Option ℕ
node_index node_id =
    if ltb node_id addr_module_min || ltb addr_module_max node_id
    then none
    else some (node_id - addr_module_min)

abbrev pub backplane_index : ℕ → Option ℕ
backplane_index addr =
    if ltb addr addr_backplane_min || ltb addr_backplane_max addr
    then none
    else some (addr - addr_backplane_min)

abbrev pub node_at : CoreEngine → ℕ → NodeRecord
node_at c idx = get_or c.nodes idx new_node

abbrev pub backplane_at : CoreEngine → ℕ → BackplaneRecord
backplane_at c idx = get_or c.backplanes idx new_backplane

abbrev pub entry_at : CoreEngine → ℕ → DescriptorCacheEntry
entry_at c idx = get_or c.descriptors idx new_entry

abbrev pub with_node : ℕ → (NodeRecord → NodeRecord) → CoreEngine → CoreEngine
with_node idx f c = record c { nodes = modify idx f c.nodes }

abbrev pub with_backplane : ℕ → (BackplaneRecord → BackplaneRecord) → CoreEngine → CoreEngine
with_backplane idx f c = record c { backplanes = modify idx f c.backplanes }

abbrev pub with_entry : ℕ → (DescriptorCacheEntry → DescriptorCacheEntry) → CoreEngine → CoreEngine
with_entry idx f c = record c { descriptors = modify idx f c.descriptors }

abbrev pub discovery_state : ℕ → CoreEngine → DiscoveryState
discovery_state node_id c = elim (node_index node_id) [
  | none ↦ undiscovered
  | some idx ↦ (node_at c idx).discovery
]

abbrev pub node_in_use : ℕ → CoreEngine → Bool
node_in_use node_id c = elim (node_index node_id) [
  | none ↦ false
  | some idx ↦ (node_at c idx).in_use
]

abbrev pub backplane_enrolled : ℕ → CoreEngine → Bool
backplane_enrolled addr c = elim (backplane_index addr) [
  | none ↦ false
  | some idx ↦ (backplane_at c idx).enrolled
]

unfoldable pub enqueue_lifecycle : LifecycleEvent → CoreEngine → Bool × CoreEngine
enqueue_lifecycle ev c =
    let (taken, ring) = push ev c.pending_lifecycle in
    if taken
    then (true, record c { pending_lifecycle = ring })
    else (false, record c { dropped_deliveries = inc32 c.dropped_deliveries })

abbrev pub is_enrolment : Notice → Bool
is_enrolment node_enrolled = true
is_enrolment _ = false

unfoldable pub on_notice : Notice → ℕ → CoreEngine → CoreEngine
on_notice notice addr c = elim (backplane_index addr) [
  | none ↦ c
  | some idx ↦
      if is_enrolment notice then with_backplane idx (λ b. record b { enrolled = true }) c else c
]

-- The notices, oldest last.
unfoldable pub heard : List (Notice × ℕ) → CoreEngine → CoreEngine
heard [] c = c
heard ((notice, addr) ∷ ns) c = on_notice notice addr (heard ns c)

-- The engine behind a call that left the tracker `h`, having told its notices.
unfoldable pub with_health : HealthTracker → CoreEngine → CoreEngine
with_health h c = heard h.notices (record c { health = record h { notices = [] } })
