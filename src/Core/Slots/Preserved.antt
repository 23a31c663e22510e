-- ===== src/Core/Slots/Preserved.antt =====
-- core/core_engine.cpp, reconcile_slot_map: the two tables of the assignment through its loops.
use omgp.Base.{
  replicate, min, subst, Bytes, Option-cases, ℕ, zero, suc, ◌+◌, ◌-◌, ◌≤◌, ◌<◌, ◌≡◌, inl, inr, refl,
  sym, ap, ◌∙◌, Bool, true, false, some, arith, length, get_or, Bool-cases, ◌==◌,
}
use omgp.Protocol.{max_nodes, bp_slot_map_max_slots, addr_backplane_min}
use omgp.Core.Types.{new_node, BackplaneRecord, new_backplane}
use omgp.Link.Wire.{Wire}
use omgp.Core.Engine.{new_engine, backplane_index, CoreEngine, with_backplane}
use omgp.Core.Slots.{assigned_at, clear_exhaustion}
use omgp.Core.Slots.Assigned.{IsAssigned, backplane_table}
use omgp.Core.Slots.Assigned.{IsUnmoved-IsAssigned}
use omgp.Core.Slots.Moves.{with_backplane-IsUnmoved, clear_exhaustion-IsUnmoved}
use omgp.L3.Types.{BpSlotMapResp}
use omgp.Core.Slots.{
  reconcile_slot, reconcile_named, vacate, reconcile_rest, reconcile_at, reconcile_slot_map,
  slot_bit,
}
use omgp.Core.Slots.Rounds.{remove-IsAssigned, assign-IsAssigned}

vacate-IsAssigned :
    (bp slot : ℕ) (c : CoreEngine)
    → bp < backplane_table
    → slot < bp_slot_map_max_slots
    → IsAssigned c
    → IsAssigned (vacate bp slot c)
unfolding vacate
vacate-IsAssigned bp slot c hb hs v =
    let c1 = clear_exhaustion bp slot c in
    let u = clear_exhaustion-IsUnmoved bp slot c in
    let v1 = IsUnmoved-IsAssigned c c1 u v in
    elim (Bool-cases (assigned_at c bp slot == 0)) [
      | inl e ↦ rw (vacate, e) v1
      | inr e ↦
          rw (vacate, e) (remove-IsAssigned bp slot c1 hb hs (ground (arith, u.table bp slot)) v1)
    ]

reconcile_slot-IsAssigned :
    (bp slot : ℕ) (occupied : Bool) (c : CoreEngine)
    → bp < backplane_table
    → slot < bp_slot_map_max_slots
    → IsAssigned c
    → IsAssigned (reconcile_slot bp (addr_backplane_min + bp) occupied slot c)
unfolding reconcile_slot vacate
reconcile_slot-IsAssigned bp slot false c hb hs v = vacate-IsAssigned bp slot c hb hs v
reconcile_slot-IsAssigned bp slot true c hb hs v = elim (Bool-cases (assigned_at c bp slot == 0)) [
  | inl e ↦ rw (reconcile_slot, e) (assign-IsAssigned bp slot c hb hs (ground arith) v)
  | inr e ↦ rw (reconcile_slot, e) v
]

reconcile_named-IsAssigned :
    (bp : ℕ) (occupied : Bytes) (n slot : ℕ) (c : CoreEngine)
    → bp < backplane_table
    → slot + n ≤ bp_slot_map_max_slots
    → IsAssigned c
    → IsAssigned (reconcile_named bp (addr_backplane_min + bp) occupied n slot c)
unfolding reconcile_named
reconcile_named-IsAssigned bp occupied zero slot c hb hs v = v
reconcile_named-IsAssigned bp occupied (suc n) slot c hb hs v =
    reconcile_named-IsAssigned bp occupied n (slot + 1)
      (reconcile_slot bp (addr_backplane_min + bp) (slot_bit occupied slot) slot c) hb (omega arith)
      (reconcile_slot-IsAssigned bp slot (slot_bit occupied slot) c hb (omega arith) v)

reconcile_rest-IsAssigned :
    (bp n slot : ℕ) (c : CoreEngine)
    → bp < backplane_table
    → slot + n ≤ bp_slot_map_max_slots
    → IsAssigned c
    → IsAssigned (reconcile_rest bp n slot c)
unfolding reconcile_rest
reconcile_rest-IsAssigned bp zero slot c hb hs v = v
reconcile_rest-IsAssigned bp (suc n) slot c hb hs v =
    reconcile_rest-IsAssigned bp n (slot + 1) (vacate bp slot c) hb (omega arith)
      (vacate-IsAssigned bp slot c hb (omega arith) v)

reconcile_at-IsAssigned :
    (bp : ℕ) (resp : BpSlotMapResp) (c : CoreEngine)
    → bp < backplane_table
    → IsAssigned c
    → IsAssigned (reconcile_at (some bp) (addr_backplane_min + bp) resp c)
unfolding reconcile_at
reconcile_at-IsAssigned bp resp c hb v =
    let n = min resp.slot_count bp_slot_map_max_slots in
    let counted : BackplaneRecord → BackplaneRecord = λ b. record b { slot_count = n } in
    let c1 : CoreEngine = with_backplane bp counted c in
    let v1 = IsUnmoved-IsAssigned c c1 (with_backplane-IsUnmoved bp counted c (λ b. refl)) v in
    let named = reconcile_named bp (addr_backplane_min + bp) resp.occupied n 0 c1 in
    reconcile_rest-IsAssigned bp (bp_slot_map_max_slots - n) n named hb (omega arith)
      (reconcile_named-IsAssigned bp resp.occupied n 0 c1 hb (omega arith) v1)

backplane_of :
    (addr bp : ℕ)
    → backplane_index addr ≡ some bp
    → (bp < backplane_table) × (addr ≡ addr_backplane_min + bp)
backplane_of addr bp h = ground arith

-- A slot map keeps the two tables of the assignment in agreement, whatever it says and whoever sends it:
-- a slot holds no id, or the id of a node in use whose record names that backplane and that slot; and the
-- id of every node in use is held by the slot that its record names. So no two slots share an id, and no
-- id is lost.
pub reconcile_slot_map-IsAssigned :
    (addr : ℕ) (resp : BpSlotMapResp) (c : CoreEngine)
    → IsAssigned c
    → IsAssigned (reconcile_slot_map addr resp c)
unfolding reconcile_at
reconcile_slot_map-IsAssigned addr resp c v = elim (Option-cases (backplane_index addr)) [
  | inl e ↦ rw (reconcile_at, e) v
  | inr (bp, e) ↦
      let (hb, at) = backplane_of addr bp e in
      subst (λ o. IsAssigned (reconcile_at o addr resp c)) (sym e)
        (subst (λ a. IsAssigned (reconcile_at (some bp) a resp c)) (sym at)
          (reconcile_at-IsAssigned bp resp c hb v))
]

get_or-replicate : {A : Type 0} (n i : ℕ) (a : A) → get_or (replicate n a) i a ≡ a
get_or-replicate zero i a = refl
get_or-replicate (suc n) zero a = refl
get_or-replicate (suc n) (suc i) a = get_or-replicate n i a

pub new_engine-IsAssigned : (wire : Wire) (host_addr : ℕ) → IsAssigned (new_engine wire host_addr)
new_engine-IsAssigned wire host_addr = record {
  nodes_length = refl;
  backplanes_length = refl;
  slots_length =
      λ bp. ap (λ b. length b.node_id_by_slot) (get_or-replicate backplane_table bp new_backplane);
  held = λ bp slot. inl (
      ap (λ b. get_or b.node_id_by_slot slot 0) (get_or-replicate backplane_table bp new_backplane)
      ∙ get_or-replicate bp_slot_map_max_slots slot 0);
  owned = λ idx. inl (ap (λ n. n.in_use) (get_or-replicate max_nodes idx new_node));
}
