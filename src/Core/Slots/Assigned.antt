-- ===== src/Core/Slots/Assigned.antt =====
-- core/core_engine.cpp: the two tables of the assignment of node ids, and when they agree.
use omgp.Base.{ℕ, ◌+◌, ◌-◌, ◌≤◌, ◌<◌, ◌≡◌, ◌≢◌, ◌⊎◌, inl, inr, ◌∙◌, true, false, arith, length}
use omgp.Protocol.{
  max_nodes, bp_slot_map_max_slots, addr_module_min, addr_module_max, addr_backplane_min,
  addr_backplane_max,
}
use omgp.Core.Types.{NodeRecord}
use omgp.Core.Engine.{CoreEngine, node_at, backplane_at}
use omgp.Core.Slots.{assigned_at, id_pool}

abbrev pub backplane_table : ℕ
backplane_table = addr_backplane_max - addr_backplane_min + 1

-- A slot holds no id, or the id of a node in use that stands in it.
abbrev pub IsHeld : CoreEngine → ℕ → ℕ → Type 0
IsHeld c bp slot =
    (assigned_at c bp slot ≡ 0)
    ⊎ ((addr_module_min ≤ assigned_at c bp slot)
        × (assigned_at c bp slot ≤ addr_module_max)
        × ((node_at c (assigned_at c bp slot - addr_module_min)).in_use ≡ true)
        × ((node_at c (assigned_at c bp slot - addr_module_min)).backplane_addr
            ≡ addr_backplane_min + bp)
        × ((node_at c (assigned_at c bp slot - addr_module_min)).slot ≡ slot))

-- A node is free, or its id is held by the slot that its record names.
abbrev pub IsOwned : CoreEngine → ℕ → Type 0
IsOwned c idx =
    ((node_at c idx).in_use ≡ false)
    ⊎ ((addr_backplane_min ≤ (node_at c idx).backplane_addr)
        × (assigned_at c ((node_at c idx).backplane_addr - addr_backplane_min) (node_at c idx).slot
            ≡ addr_module_min + idx))

pub record IsAssigned (c : CoreEngine) : Type 0 where
  pub nodes_length : length c.nodes ≡ max_nodes
  pub backplanes_length : length c.backplanes ≡ backplane_table
  pub slots_length : (bp : ℕ) → length (backplane_at c bp).node_id_by_slot ≡ bp_slot_map_max_slots
  pub held : (bp slot : ℕ) → IsHeld c bp slot
  pub owned : (idx : ℕ) → IsOwned c idx

-- The record names the same place.
pub record IsSamePlace (n n' : NodeRecord) : Type 0 where
  pub in_use_same : n'.in_use ≡ n.in_use
  pub backplane_same : n'.backplane_addr ≡ n.backplane_addr
  pub slot_same : n'.slot ≡ n.slot

-- The tables are as long as before.
pub record IsSized (c c' : CoreEngine) : Type 0 where
  pub nodes_size : length c'.nodes ≡ length c.nodes
  pub backplanes_size : length c'.backplanes ≡ length c.backplanes
  pub slots_size :
      (bp : ℕ)
      → length (backplane_at c' bp).node_id_by_slot ≡ length (backplane_at c bp).node_id_by_slot

pub record IsUnmoved (c c' : CoreEngine) : Type 0 where
  pub sized : IsSized c c'
  pub places : (idx : ℕ) → IsSamePlace (node_at c idx) (node_at c' idx)
  pub table : (bp slot : ℕ) → assigned_at c' bp slot ≡ assigned_at c bp slot

-- The id of the node at `idx` goes to the slot.
pub record IsPlaced (bp slot idx : ℕ) (c c' : CoreEngine) : Type 0 where
  pub sized : IsSized c c'
  pub places :
      (i : ℕ)
      → ((i ≡ idx)
          × ((node_at c' i).in_use ≡ true)
          × ((node_at c' i).backplane_addr ≡ addr_backplane_min + bp)
          × ((node_at c' i).slot ≡ slot))
        ⊎ ((i ≢ idx) × IsSamePlace (node_at c i) (node_at c' i))
  pub table :
      (b s : ℕ)
      → ((b ≡ bp) × (s ≡ slot) × (assigned_at c' b s ≡ addr_module_min + idx))
        ⊎ (((b ≢ bp) ⊎ (s ≢ slot)) × (assigned_at c' b s ≡ assigned_at c b s))

-- The slot loses the id of the node at `idx`, which is free then.
pub record IsVacated (bp slot idx : ℕ) (c c' : CoreEngine) : Type 0 where
  pub sized : IsSized c c'
  pub places :
      (i : ℕ)
      → ((i ≡ idx) × ((node_at c' i).in_use ≡ false))
        ⊎ ((i ≢ idx) × IsSamePlace (node_at c i) (node_at c' i))
  pub table :
      (b s : ℕ)
      → ((b ≡ bp) × (s ≡ slot) × (assigned_at c' b s ≡ 0))
        ⊎ (((b ≢ bp) ⊎ (s ≢ slot)) × (assigned_at c' b s ≡ assigned_at c b s))

sized_lengths :
    (c c' : CoreEngine)
    → IsSized c c'
    → IsAssigned c
    → (length c'.nodes ≡ max_nodes)
      × (length c'.backplanes ≡ backplane_table)
      × ((bp : ℕ) → length (backplane_at c' bp).node_id_by_slot ≡ bp_slot_map_max_slots)
sized_lengths c c' z v = (
  z.nodes_size ∙ v.nodes_length,
  z.backplanes_size ∙ v.backplanes_length,
  λ bp. z.slots_size bp ∙ v.slots_length bp,
)

pub IsUnmoved-IsAssigned : (c c' : CoreEngine) → IsUnmoved c c' → IsAssigned c → IsAssigned c'
IsUnmoved-IsAssigned c c' u v =
    let (l0, l1, l2) = sized_lengths c c' u.sized v in
    record {
      nodes_length = l0;
      backplanes_length = l1;
      slots_length = l2;
      held = λ bp slot. rw (u.table bp slot) (
          let p = u.places (assigned_at c bp slot - addr_module_min) in
          rw p.in_use_same (rw p.backplane_same (rw p.slot_same (v.held bp slot))));
      owned = λ idx.
          let p = u.places idx in
          rw p.in_use_same (
            rw p.backplane_same (
              rw p.slot_same (
                rw
                  (u.table ((node_at c idx).backplane_addr - addr_backplane_min)
                    (node_at c idx).slot)
                  (v.owned idx))));
    }

IsHeld-placed :
    (bp slot idx : ℕ) (c c' : CoreEngine)
    → idx < id_pool
    → (node_at c idx).in_use ≡ false
    → IsPlaced bp slot idx c c'
    → (b s : ℕ) → IsHeld c b s
    → IsHeld c' b s
IsHeld-placed bp slot idx c c' k free p b s (inl e) = ground (arith, p.table b s, p.places idx)
IsHeld-placed bp slot idx c c' k free p b s (inr h) =
    ground (arith, p.table b s, p.places idx, p.places (assigned_at c b s - addr_module_min))

IsOwned-placed :
    (bp slot idx : ℕ) (c c' : CoreEngine)
    → assigned_at c bp slot ≡ 0
    → IsPlaced bp slot idx c c'
    → (i : ℕ) → IsOwned c i
    → IsOwned c' i
IsOwned-placed bp slot idx c c' empty p i o = ground (
  arith,
  p.places i,
  p.table ((node_at c' i).backplane_addr - addr_backplane_min) (node_at c' i).slot,
)

pub IsPlaced-IsAssigned :
    (bp slot idx : ℕ) (c c' : CoreEngine)
    → idx < id_pool
    → (node_at c idx).in_use ≡ false
    → assigned_at c bp slot ≡ 0
    → IsPlaced bp slot idx c c'
    → IsAssigned c
    → IsAssigned c'
IsPlaced-IsAssigned bp slot idx c c' k free empty p v =
    let (l0, l1, l2) = sized_lengths c c' p.sized v in
    record {
      nodes_length = l0;
      backplanes_length = l1;
      slots_length = l2;
      held = λ b s. IsHeld-placed bp slot idx c c' k free p b s (v.held b s);
      owned = λ i. IsOwned-placed bp slot idx c c' empty p i (v.owned i);
    }

IsHeld-vacated :
    (bp slot idx : ℕ) (c c' : CoreEngine)
    → assigned_at c bp slot ≡ addr_module_min + idx
    → IsVacated bp slot idx c c'
    → IsHeld c bp slot
    → (b s : ℕ) → IsHeld c b s
    → IsHeld c' b s
IsHeld-vacated bp slot idx c c' e p q b s (inl e0) = ground (arith, p.table b s)
IsHeld-vacated bp slot idx c c' e p q b s (inr h) =
    ground (arith, p.table b s, p.places (assigned_at c b s - addr_module_min))

IsOwned-vacated :
    (bp slot idx : ℕ) (c c' : CoreEngine)
    → assigned_at c bp slot ≡ addr_module_min + idx
    → IsVacated bp slot idx c c'
    → (i : ℕ) → IsOwned c i
    → IsOwned c' i
IsOwned-vacated bp slot idx c c' e p i o = ground (
  arith,
  p.places i,
  p.table ((node_at c' i).backplane_addr - addr_backplane_min) (node_at c' i).slot,
)

pub IsVacated-IsAssigned :
    (bp slot idx : ℕ) (c c' : CoreEngine)
    → assigned_at c bp slot ≡ addr_module_min + idx
    → IsVacated bp slot idx c c'
    → IsAssigned c
    → IsAssigned c'
IsVacated-IsAssigned bp slot idx c c' e p v =
    let (l0, l1, l2) = sized_lengths c c' p.sized v in
    record {
      nodes_length = l0;
      backplanes_length = l1;
      slots_length = l2;
      held = λ b s. IsHeld-vacated bp slot idx c c' e p (v.held bp slot) b s (v.held b s);
      owned = λ i. IsOwned-vacated bp slot idx c c' e p i (v.owned i);
    }
