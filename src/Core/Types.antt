-- ===== src/Core/Types.antt =====
-- core/core_types.hpp: the value types of the host's engine. The fields of a node or a backplane that no
-- code of core/ reads or writes yet (channel switches, event budget, demotion, liveness) are left out.
use omgp.Base.{ℕ, ◌+◌, ◌/◌, Bool, false, Option, none, Bytes, replicate}
use omgp.Protocol.{max_descriptor_bytes, bp_slot_map_max_slots}

pub data CoreStatus : Type 0 where
  ok no_free_node_id queue_full not_discovered request_id_reused invalid_value : CoreStatus

pub data DiscoveryState : Type 0 where
  undiscovered identifying reading_descriptor discovered : DiscoveryState

-- A pointer to a cache entry is its index.
pub record NodeRecord : Type 0 where
  pub in_use : Bool
  pub backplane_addr : ℕ
  pub slot : ℕ
  pub discovery : DiscoveryState
  pub model_vendor : ℕ
  pub model_hw_rev : ℕ
  pub model_fw_rev : ℕ
  pub module_type : ℕ
  pub desc_len : ℕ
  pub desc_crc : ℕ
  pub descriptor : Option ℕ
  pub ever_discovered : Bool
  pub desc_stalled_superframe : ℕ
  pub last_measured_duration_us : ℕ

abbrev pub new_node : NodeRecord
new_node = record {
  in_use = false;
  backplane_addr = 0;
  slot = 0;
  discovery = undiscovered;
  model_vendor = 0;
  model_hw_rev = 0;
  model_fw_rev = 0;
  module_type = 0;
  desc_len = 0;
  desc_crc = 0;
  descriptor = none;
  ever_discovered = false;
  desc_stalled_superframe = 0;
  last_measured_duration_us = 0;
}

pub record BackplaneRecord : Type 0 where
  pub enrolled : Bool
  pub slot_count : ℕ
  pub node_id_by_slot : Bytes
  pub exhaustion_reported : Bytes
  pub last_measured_duration_us : ℕ

abbrev pub new_backplane : BackplaneRecord
new_backplane = record {
  enrolled = false;
  slot_count = 0;
  node_id_by_slot = replicate bp_slot_map_max_slots 0;
  exhaustion_reported = replicate ((bp_slot_map_max_slots + 7) / 8) 0;
  last_measured_duration_us = 0;
}

pub record DescriptorCacheEntry : Type 0 where
  pub in_use : Bool
  pub model_vendor : ℕ
  pub model_hw_rev : ℕ
  pub model_fw_rev : ℕ
  pub desc_crc : ℕ
  pub module_type : ℕ
  pub complete : Bool
  pub received : ℕ
  pub len : ℕ
  pub blob : Bytes
  pub refcount : ℕ

abbrev pub new_entry : DescriptorCacheEntry
new_entry = record {
  in_use = false;
  model_vendor = 0;
  model_hw_rev = 0;
  model_fw_rev = 0;
  desc_crc = 0;
  module_type = 0;
  complete = false;
  received = 0;
  len = 0;
  blob = replicate max_descriptor_bytes 0;
  refcount = 0;
}

pub record ParamResult : Type 0 where
  pub succeeded : Bool
  pub value : ℕ
  pub reason : ℕ

pub record DescChunkItem : Type 0 where
  pub node_id : ℕ
  pub offset : ℕ

pub data ParamOpKind : Type 0 where
  set_op get_op : ParamOpKind

pub record ParamOpItem : Type 0 where
  pub node_id : ℕ
  pub kind : ParamOpKind
  pub param_id : ℕ
  pub scope : ℕ
  pub value : ℕ
  pub request_id : ℕ

pub data LifecycleKind : Type 0 where
  node_discovered node_removed node_rediscovered node_suspect node_offline node_recovered
        backplane_suspect backplane_offline backplane_recovered bus_fault bus_recovered
        channel_settled channel_switch_timed_out module_event param_set_failed node_event_fault
        node_event_fault_cleared demoted demotion_cleared node_id_pool_exhausted :
      LifecycleKind

-- The payloads of the kinds that nothing raises yet are left out.
pub record LifecycleEvent : Type 0 where
  pub kind : LifecycleKind
  pub node_id : ℕ
  pub slot : ℕ

pub record ParamResultDelivery : Type 0 where
  pub id : ℕ
  pub result : ParamResult

pub record SuperframeBudget : Type 0 where
  pub period_us : ℕ
  pub remaining_us : ℕ
