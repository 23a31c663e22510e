-- ===== src/Core/Slots.antt =====
-- core/core_engine.cpp, reconcile_slot_map: which module stands in which slot.
pub mod Assigned
pub mod Moves
pub mod Rounds
pub mod Preserved
use omgp.Base.{
  ℕ, zero, suc, ◌+◌, ◌-◌, ◌/◌, ◌%◌, ◌^◌, Bool, true, false, List, [], ◌∷◌, Option, none, some, leb,
  ◌==◌, if◌then◌else◌, Bytes, length, get_or, modify, bit_and, bit_or, bit_xor, min,
}
use omgp.Base.Words.{u8}
use omgp.Protocol.{addr_module_min, addr_module_max, bp_slot_map_max_slots}
use omgp.L3.Types.{BpSlotMapResp}
use omgp.Core.Types.{NodeRecord, new_node, BackplaneRecord, node_removed, node_id_pool_exhausted}
use omgp.Core.Engine.{
  CoreEngine, node_index, backplane_index, backplane_at, with_node, with_backplane,
  enqueue_lifecycle,
}
use omgp.Core.Descriptors.{release_descriptor}

abbrev pub bit_of : Bytes → ℕ → Bool
bit_of bitmap slot = bit_and (get_or bitmap (slot / 8) 0 / 2 ^ (slot % 8)) 1 == 1

-- Past the bytes there is no bit.
abbrev pub slot_bit : Bytes → ℕ → Bool
slot_bit bitmap slot = if leb (length bitmap) (slot / 8) then false else bit_of bitmap slot

abbrev pub exhaustion_reported : BackplaneRecord → ℕ → Bool
exhaustion_reported bp slot =
    if leb (length bp.exhaustion_reported) (slot / 8)
    then false
    else bit_of bp.exhaustion_reported slot

-- modify() passes over a byte that is out of bounds.
unfoldable pub set_exhaustion_reported : ℕ → Bool → BackplaneRecord → BackplaneRecord
set_exhaustion_reported slot reported bp =
    let mask = u8 (2 ^ (slot % 8)) in
    record bp {
      exhaustion_reported =
          modify (slot / 8)
            (λ byte.
              if reported then u8 (bit_or byte mask) else u8 (bit_and byte (bit_xor mask 0xff)))
            bp.exhaustion_reported;
    }

-- The index of the first node that is not in use, among the first `n` of the list.
unfoldable pub free_node : ℕ → ℕ → List NodeRecord → Option ℕ
free_node zero idx nodes = none
free_node (suc n) idx [] = none
free_node (suc n) idx (node ∷ nodes) =
    let rest = free_node n (idx + 1) nodes in if node.in_use then rest else some idx

abbrev pub id_pool : ℕ
id_pool = addr_module_max - addr_module_min + 1

abbrev pub assigned_at : CoreEngine → ℕ → ℕ → ℕ
assigned_at c bp slot = get_or (backplane_at c bp).node_id_by_slot slot 0

abbrev pub cleared : NodeRecord → NodeRecord
cleared node = record new_node { ever_discovered = node.ever_discovered }

-- A report that could not be queued is made again by the next sweep.
unfoldable pub report_exhaustion : ℕ → ℕ → ℕ → CoreEngine → CoreEngine
report_exhaustion bp backplane_addr slot c =
    if exhaustion_reported (backplane_at c bp) slot
    then c
    else (let (taken, c1) =
          enqueue_lifecycle
            (record { kind = node_id_pool_exhausted; node_id = backplane_addr; slot = slot }) c in
        with_backplane bp (set_exhaustion_reported slot taken) c1)

unfoldable pub assign : ℕ → ℕ → ℕ → Option ℕ → CoreEngine → CoreEngine
assign bp backplane_addr slot none c = report_exhaustion bp backplane_addr slot c
assign bp backplane_addr slot (some idx) c =
    with_backplane bp
      (λ b. record (set_exhaustion_reported slot false b) {
        node_id_by_slot = modify slot (λ _. addr_module_min + idx) b.node_id_by_slot;
      })
      (with_node idx
        (λ n. record (cleared n) { in_use = true; backplane_addr = backplane_addr; slot = slot }) c)

unfoldable pub forget_node : Option ℕ → CoreEngine → CoreEngine
forget_node none c = c
forget_node (some idx) c = with_node idx cleared (release_descriptor idx c)

-- The module that the slot of backplane `bp` held is gone.
unfoldable pub remove : ℕ → ℕ → CoreEngine → CoreEngine
remove bp slot c =
    let assigned = assigned_at c bp slot in
    (enqueue_lifecycle (record { kind = node_removed; node_id = assigned; slot = slot })
      (with_backplane bp
        (λ b. record b { node_id_by_slot = modify slot (λ _. 0) b.node_id_by_slot })
        (forget_node (node_index assigned) c))).1

abbrev pub clear_exhaustion : ℕ → ℕ → CoreEngine → CoreEngine
clear_exhaustion bp slot c = with_backplane bp (set_exhaustion_reported slot false) c

-- One round of the loop over the slots that the response names.
unfoldable pub reconcile_slot : ℕ → ℕ → Bool → ℕ → CoreEngine → CoreEngine
reconcile_slot bp backplane_addr occupied slot c =
    let assigned = assigned_at c bp slot in
    if occupied
    then (if assigned == 0
        then assign bp backplane_addr slot (free_node id_pool 0 c.nodes) c
        else c)
    else (let c1 = clear_exhaustion bp slot c in if assigned == 0 then c1 else remove bp slot c1)

unfoldable pub reconcile_named : ℕ → ℕ → Bytes → ℕ → ℕ → CoreEngine → CoreEngine
reconcile_named bp backplane_addr occupied zero slot c = c
reconcile_named bp backplane_addr occupied (suc n) slot c =
    reconcile_named bp backplane_addr occupied n (slot + 1)
      (reconcile_slot bp backplane_addr (slot_bit occupied slot) slot c)

-- One round of the loop over the slots that it does not name.
unfoldable pub vacate : ℕ → ℕ → CoreEngine → CoreEngine
vacate bp slot c =
    let c1 = clear_exhaustion bp slot c in
    if assigned_at c bp slot == 0 then c1 else remove bp slot c1

unfoldable pub reconcile_rest : ℕ → ℕ → ℕ → CoreEngine → CoreEngine
reconcile_rest bp zero slot c = c
reconcile_rest bp (suc n) slot c = reconcile_rest bp n (slot + 1) (vacate bp slot c)

unfoldable pub reconcile_at : Option ℕ → ℕ → BpSlotMapResp → CoreEngine → CoreEngine
reconcile_at none backplane_addr resp c = c
reconcile_at (some bp) backplane_addr resp c =
    let slot_count = min resp.slot_count bp_slot_map_max_slots in
    reconcile_rest bp (bp_slot_map_max_slots - slot_count) slot_count (
      reconcile_named bp backplane_addr resp.occupied slot_count 0
        (with_backplane bp (λ b. record b { slot_count = slot_count }) c))

abbrev pub reconcile_slot_map : ℕ → BpSlotMapResp → CoreEngine → CoreEngine
reconcile_slot_map backplane_addr resp c =
    reconcile_at (backplane_index backplane_addr) backplane_addr resp c
