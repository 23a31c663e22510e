-- ===== src/Core/Slots/Rounds.antt =====
-- core/core_engine.cpp, reconcile_slot_map: a node is assigned to a slot, or removed from it.
use omgp.Base.{
  subst, Option-cases, ℕ, zero, suc, ◌+◌, ◌-◌, ◌≤◌, ◌<◌, ◌≡◌, ◌≢◌, ◌⊎◌, inl, inr, refl, sym, ◌∙◌,
  true, false, List, [], ◌∷◌, some, arith, length, get_or, modify, length-modify,
  get_or-modify_same, get_or-modify_other, Bool-cases,
}
use omgp.Protocol.{bp_slot_map_max_slots, addr_module_min, addr_module_max, addr_backplane_min}
use omgp.Core.Types.{NodeRecord, new_node, BackplaneRecord, LifecycleEvent, node_removed}
use omgp.Core.Engine.{CoreEngine, node_at, with_node, with_backplane, enqueue_lifecycle, node_index}
use omgp.Core.Descriptors.{release_descriptor}
use omgp.Core.Slots.{
  assigned_at, id_pool, set_exhaustion_reported, report_exhaustion, assign, forget_node, remove,
  cleared,
}
use omgp.Core.Slots.Assigned.{IsPlaced, IsVacated, IsAssigned, backplane_table}
use omgp.Core.Slots.Assigned.{IsUnmoved-IsAssigned, IsPlaced-IsAssigned, IsVacated-IsAssigned}
use omgp.Core.Slots.Moves.{
  enqueue_lifecycle-IsUnmoved, report_exhaustion-IsUnmoved, release_descriptor-IsUnmoved, written,
  written_sizes, same_or_not, same_place,
}
use omgp.Core.Slots.{free_node}

-- The nodes with the record at `idx` replaced.
replaced :
    (idx : ℕ) (f : NodeRecord → NodeRecord) (c : CoreEngine)
    → idx < length c.nodes
    → (i : ℕ)
    → ((i ≡ idx) × (node_at (with_node idx f c) i ≡ f (node_at c idx)))
      ⊎ ((i ≢ idx) × (node_at (with_node idx f c) i ≡ node_at c i))
replaced idx f c h i = elim (same_or_not i idx) [
  | inl e ↦ inl (e, rw e (get_or-modify_same idx f c.nodes new_node h))
  | inr other ↦ inr (other, get_or-modify_other idx i f c.nodes new_node (λ e. other (sym e)))
]

assign-IsPlaced :
    (bp slot idx : ℕ) (c : CoreEngine)
    → bp < backplane_table
    → slot < bp_slot_map_max_slots
    → idx < id_pool
    → IsAssigned c
    → IsPlaced bp slot idx c (assign bp (addr_backplane_min + bp) slot (some idx) c)
unfolding assign set_exhaustion_reported
assign-IsPlaced bp slot idx c hb hs hi v =
    let place : NodeRecord → NodeRecord = λ n. record (cleared n) {
      in_use = true;
      backplane_addr = addr_backplane_min + bp;
      slot = slot;
    } in
    let c1 : CoreEngine = with_node idx place c in
    let put : BackplaneRecord → BackplaneRecord = λ b.
      record (set_exhaustion_reported slot false b) {
        node_id_by_slot = modify slot (λ _. addr_module_min + idx) b.node_id_by_slot;
      } in
    let size = v.slots_length bp in
    let z = written_sizes bp slot (addr_module_min + idx) put c1 (λ b. refl) in
    record {
      sized = record {
        nodes_size = length-modify idx place c.nodes;
        backplanes_size = z.backplanes_size;
        slots_size = z.slots_size;
      };
      places = λ i. elim (replaced idx place c (omega (arith, v.nodes_length)) i) [
        | inl (e, k) ↦ inl (e, rw k refl, rw k refl, rw k refl)
        | inr (e, k) ↦ inr (e, rw k (same_place (node_at c i)))
      ];
      table =
          written bp slot (addr_module_min + idx) put c1 (λ b. refl)
            (omega (arith, v.backplanes_length)) (omega (arith, size));
    }

-- A slot that holds an id is one of the tables'.
in_tables :
    (bp slot : ℕ) (c : CoreEngine)
    → IsAssigned c
    → assigned_at c bp slot ≢ 0
    → (addr_module_min ≤ assigned_at c bp slot) × (assigned_at c bp slot ≤ addr_module_max)
in_tables bp slot c v h = ground (arith, v.held bp slot)

node_index-some :
    (id : ℕ)
    → addr_module_min ≤ id
    → id ≤ addr_module_max
    → node_index id ≡ some (id - addr_module_min)
node_index-some id a b = ground arith

-- A slot that holds the id of the node at `idx` gives it up, and the node is free.
give_up-IsVacated :
    (bp slot idx : ℕ) (c : CoreEngine)
    → bp < backplane_table
    → slot < bp_slot_map_max_slots
    → idx < id_pool
    → IsAssigned c
    → IsVacated bp slot idx c (
        with_backplane bp
          (λ b. record b { node_id_by_slot = modify slot (λ _. 0) b.node_id_by_slot })
          (with_node idx cleared c))
give_up-IsVacated bp slot idx c hb hs hi v =
    let c1 : CoreEngine = with_node idx cleared c in
    let put : BackplaneRecord → BackplaneRecord =
      λ b. record b { node_id_by_slot = modify slot (λ _. 0) b.node_id_by_slot } in
    let size = v.slots_length bp in
    let z = written_sizes bp slot 0 put c1 (λ b. refl) in
    record {
      sized = record {
        nodes_size = length-modify idx cleared c.nodes;
        backplanes_size = z.backplanes_size;
        slots_size = z.slots_size;
      };
      places = λ i. elim (replaced idx cleared c (omega (arith, v.nodes_length)) i) [
        | inl (e, k) ↦ inl (e, rw k refl)
        | inr (e, k) ↦ inr (e, rw k (same_place (node_at c i)))
      ];
      table =
          written bp slot 0 put c1 (λ b. refl) (omega (arith, v.backplanes_length))
            (omega (arith, size));
    }

pub remove-IsAssigned :
    (bp slot : ℕ) (c : CoreEngine)
    → bp < backplane_table
    → slot < bp_slot_map_max_slots
    → assigned_at c bp slot ≢ 0
    → IsAssigned c
    → IsAssigned (remove bp slot c)
unfolding remove forget_node
remove-IsAssigned bp slot c hb hs h v =
    let id = assigned_at c bp slot in
    let idx = id - addr_module_min in
    let (lo, hi) = in_tables bp slot c v h in
    let c1 = release_descriptor idx c in
    let u = release_descriptor-IsUnmoved idx c in
    let v1 = IsUnmoved-IsAssigned c c1 u v in
    let put : BackplaneRecord → BackplaneRecord =
      λ b. record b { node_id_by_slot = modify slot (λ _. 0) b.node_id_by_slot } in
    let c3 : CoreEngine = with_backplane bp put (with_node idx cleared c1) in
    let holds : assigned_at c1 bp slot ≡ addr_module_min + idx = u.table bp slot ∙ omega arith in
    let v3 =
      IsVacated-IsAssigned bp slot idx c1 c3 holds
        (give_up-IsVacated bp slot idx c1 hb hs (omega arith) v1) v1 in
    let ev : LifecycleEvent = record { kind = node_removed; node_id = id; slot = slot } in
    rw (remove, node_index-some id lo hi)
      (IsUnmoved-IsAssigned c3 (enqueue_lifecycle ev c3).1 (enqueue_lifecycle-IsUnmoved ev c3) v3)

free_node-free :
    (n k : ℕ) (nodes : List NodeRecord) (idx : ℕ)
    → free_node n k nodes ≡ some idx
    → (k ≤ idx) × (idx < k + n) × ((get_or nodes (idx - k) new_node).in_use ≡ false)
unfolding free_node
free_node-free zero k nodes idx h = ground arith
free_node-free (suc n) k [] idx h = ground arith
free_node-free (suc n) k (node ∷ nodes) idx h = elim (Bool-cases node.in_use) [
  | inr e ↦
      let q : k ≡ idx = ground arith in
      let z : idx - k ≡ 0 = omega arith in (omega arith, omega arith, rw z e)
  | inl e ↦
      let later : free_node n (k + 1) nodes ≡ some idx = ground arith in
      let (a, b, f) = free_node-free n (k + 1) nodes idx later in
      let z : idx - k ≡ suc (idx - (k + 1)) = omega arith in (omega arith, omega arith, rw z f)
]

pub assign-IsAssigned :
    (bp slot : ℕ) (c : CoreEngine)
    → bp < backplane_table
    → slot < bp_slot_map_max_slots
    → assigned_at c bp slot ≡ 0
    → IsAssigned c
    → IsAssigned (assign bp (addr_backplane_min + bp) slot (free_node id_pool 0 c.nodes) c)
unfolding assign
assign-IsAssigned bp slot c hb hs empty v = elim (Option-cases (free_node id_pool 0 c.nodes)) [
  | inl e ↦
      rw (assign, e)
        (IsUnmoved-IsAssigned c (report_exhaustion bp (addr_backplane_min + bp) slot c)
          (report_exhaustion-IsUnmoved bp (addr_backplane_min + bp) slot c) v)
  | inr (idx, e) ↦
      let (a, b, free0) = free_node-free id_pool 0 c.nodes idx e in
      let free = subst (λ i. (node_at c i).in_use ≡ false) (omega arith) free0 in
      subst (λ o. IsAssigned (assign bp (addr_backplane_min + bp) slot o c)) (sym e)
        (IsPlaced-IsAssigned bp slot idx c (assign bp (addr_backplane_min + bp) slot (some idx) c) b
          free empty (assign-IsPlaced bp slot idx c hb hs b v) v)
]
