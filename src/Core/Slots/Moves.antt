-- ===== src/Core/Slots/Moves.antt =====
-- core/core_engine.cpp, reconcile_slot_map: what each of its steps does to the two tables of the
-- assignment.
use omgp.Base.{
  ℕ, zero, suc, ◌-◌, ◌<◌, ◌≡◌, ◌≢◌, ◌⊎◌, inl, inr, refl, sym, ap, ◌∙◌, false, List, [], ◌∷◌, Option,
  none, some, arith, length, get_or, modify, length-modify, get_or-modify_same, get_or-modify_other,
  Bool-cases,
}
use omgp.Core.Types.{
  NodeRecord, new_node, BackplaneRecord, new_backplane, DescriptorCacheEntry, LifecycleEvent,
  node_id_pool_exhausted,
}
use omgp.Core.Engine.{
  CoreEngine, node_at, backplane_at, with_node, with_backplane, with_entry, enqueue_lifecycle,
}
use omgp.Core.Descriptors.{release_at, release_descriptor}
use omgp.Core.Slots.{
  assigned_at, set_exhaustion_reported, report_exhaustion, clear_exhaustion, exhaustion_reported,
}
use omgp.Core.Slots.Assigned.{IsSamePlace, IsSized, IsUnmoved}

-- At another index, or at this one in the list's range, or past its end.
module _ {A : Type 0} where
  pub modified :
      (i j : ℕ) (f : A → A) (xs : List A) (d : A)
      → ((i ≡ j) × (get_or (modify i f xs) j d ≡ f (get_or xs j d)))
        ⊎ (get_or (modify i f xs) j d ≡ get_or xs j d)
  modified i j f [] d = inr refl
  modified zero zero f (x ∷ xs) d = inl (refl, refl)
  modified zero (suc j) f (x ∷ xs) d = inr refl
  modified (suc i) zero f (x ∷ xs) d = inr refl
  modified (suc i) (suc j) f (x ∷ xs) d = ground (arith, modified i j f xs d)

pub same_place : (n : NodeRecord) → IsSamePlace n n
same_place n = record { in_use_same = refl; backplane_same = refl; slot_same = refl }

pub same_tables :
    (c c' : CoreEngine) → c'.nodes ≡ c.nodes → c'.backplanes ≡ c.backplanes → IsUnmoved c c'
same_tables c c' n b = record {
  sized = record {
    nodes_size = rw n refl;
    backplanes_size = rw b refl;
    slots_size = λ bp. rw b refl;
  };
  places = λ idx. rw n (same_place (node_at c idx));
  table = λ bp slot. rw b refl;
}

pub IsUnmoved-trans : {a b c : CoreEngine} → IsUnmoved a b → IsUnmoved b c → IsUnmoved a c
IsUnmoved-trans p q = record {
  sized = record {
    nodes_size = q.sized.nodes_size ∙ p.sized.nodes_size;
    backplanes_size = q.sized.backplanes_size ∙ p.sized.backplanes_size;
    slots_size = λ bp. q.sized.slots_size bp ∙ p.sized.slots_size bp;
  };
  places = λ idx. record {
    in_use_same = (q.places idx).in_use_same ∙ (p.places idx).in_use_same;
    backplane_same = (q.places idx).backplane_same ∙ (p.places idx).backplane_same;
    slot_same = (q.places idx).slot_same ∙ (p.places idx).slot_same;
  };
  table = λ bp slot. q.table bp slot ∙ p.table bp slot;
}

pub with_node-IsUnmoved :
    (idx : ℕ) (f : NodeRecord → NodeRecord) (c : CoreEngine)
    → ((n : NodeRecord) → IsSamePlace n (f n))
    → IsUnmoved c (with_node idx f c)
with_node-IsUnmoved idx f c keep = record {
  sized = record {
    nodes_size = length-modify idx f c.nodes;
    backplanes_size = refl;
    slots_size = λ bp. refl;
  };
  places = λ i. elim (modified idx i f c.nodes new_node) [
    | inl (e, k) ↦ rw k (keep (node_at c i))
    | inr k ↦ rw k (same_place (node_at c i))
  ];
  table = λ bp slot. refl;
}

pub with_backplane-IsUnmoved :
    (bp : ℕ) (f : BackplaneRecord → BackplaneRecord) (c : CoreEngine)
    → ((b : BackplaneRecord) → (f b).node_id_by_slot ≡ b.node_id_by_slot)
    → IsUnmoved c (with_backplane bp f c)
with_backplane-IsUnmoved bp f c keep =
    let same : (b : ℕ)
        → (backplane_at (with_backplane bp f c) b).node_id_by_slot
          ≡ (backplane_at c b).node_id_by_slot =
      λ b. elim (modified bp b f c.backplanes new_backplane) [
        | inl (e, k) ↦ rw k (keep (backplane_at c b))
        | inr k ↦ rw k refl
      ] in
    record {
      sized = record {
        nodes_size = refl;
        backplanes_size = length-modify bp f c.backplanes;
        slots_size = λ b. ap length (same b);
      };
      places = λ idx. same_place (node_at c idx);
      table = λ b slot. ap (λ ids. get_or ids slot 0) (same b);
    }

enqueue_lifecycle-tables :
    (ev : LifecycleEvent) (c : CoreEngine)
    → ((enqueue_lifecycle ev c).1.nodes ≡ c.nodes)
      × ((enqueue_lifecycle ev c).1.backplanes ≡ c.backplanes)
unfolding enqueue_lifecycle
enqueue_lifecycle-tables ev c = ground arith

pub enqueue_lifecycle-IsUnmoved :
    (ev : LifecycleEvent) (c : CoreEngine) → IsUnmoved c (enqueue_lifecycle ev c).1
enqueue_lifecycle-IsUnmoved ev c =
    let (n, b) = enqueue_lifecycle-tables ev c in same_tables c (enqueue_lifecycle ev c).1 n b

pub clear_exhaustion-IsUnmoved :
    (bp slot : ℕ) (c : CoreEngine) → IsUnmoved c (clear_exhaustion bp slot c)
unfolding set_exhaustion_reported
clear_exhaustion-IsUnmoved bp slot c =
    with_backplane-IsUnmoved bp (set_exhaustion_reported slot false) c (λ b. refl)

pub report_exhaustion-IsUnmoved :
    (bp addr slot : ℕ) (c : CoreEngine) → IsUnmoved c (report_exhaustion bp addr slot c)
unfolding report_exhaustion set_exhaustion_reported
report_exhaustion-IsUnmoved bp addr slot c =
    let ev : LifecycleEvent = record {
      kind = node_id_pool_exhausted;
      node_id = addr;
      slot = slot;
    } in
    elim (Bool-cases (exhaustion_reported (backplane_at c bp) slot)) [
      | inl e ↦ rw (report_exhaustion, e) (same_tables c c refl refl)
      | inr e ↦
          rw (report_exhaustion, e)
            (IsUnmoved-trans (enqueue_lifecycle-IsUnmoved ev c) (
              with_backplane-IsUnmoved bp (set_exhaustion_reported slot (enqueue_lifecycle ev c).0)
                (enqueue_lifecycle ev c).1 (λ b. refl)))
    ]

release_at-IsUnmoved : (o : Option ℕ) (idx : ℕ) (c : CoreEngine) → IsUnmoved c (release_at o idx c)
unfolding release_at
release_at-IsUnmoved none idx c = same_tables c c refl refl
release_at-IsUnmoved (some at) idx c =
    let released : DescriptorCacheEntry → DescriptorCacheEntry =
      λ e. record e { refcount = e.refcount - 1 } in
    let c1 : CoreEngine = with_entry at released c in
    IsUnmoved-trans (same_tables c c1 refl refl) (
      with_node-IsUnmoved idx (λ n. record n { descriptor = none }) c1
        (λ n. record { in_use_same = refl; backplane_same = refl; slot_same = refl }))

pub release_descriptor-IsUnmoved :
    (idx : ℕ) (c : CoreEngine) → IsUnmoved c (release_descriptor idx c)
unfolding release_descriptor
release_descriptor-IsUnmoved idx c = release_at-IsUnmoved (node_at c idx).descriptor idx c

pub same_or_not : (i j : ℕ) → (i ≡ j) ⊎ (i ≢ j)
same_or_not i j = ground arith

-- The table with one id written.
pub written :
    (bp slot id : ℕ) (f : BackplaneRecord → BackplaneRecord) (c : CoreEngine)
    → ((b : BackplaneRecord) → (f b).node_id_by_slot ≡ modify slot (λ _. id) b.node_id_by_slot)
    → bp < length c.backplanes
    → slot < length (backplane_at c bp).node_id_by_slot
    → (b s : ℕ)
    → ((b ≡ bp) × (s ≡ slot) × (assigned_at (with_backplane bp f c) b s ≡ id))
      ⊎ (((b ≢ bp) ⊎ (s ≢ slot)) × (assigned_at (with_backplane bp f c) b s ≡ assigned_at c b s))
written bp slot id f c put hb hs b s = elim (same_or_not b bp) [
  | inr other ↦ inr (
    inl other,
    ap (λ x. get_or x.node_id_by_slot s 0)
        (get_or-modify_other bp b f c.backplanes new_backplane (λ e. other (sym e))),
  )
  | inl e ↦
      let ids : (backplane_at (with_backplane bp f c) bp).node_id_by_slot
          ≡ modify slot (λ _. id) (backplane_at c bp).node_id_by_slot =
        ap (λ x. x.node_id_by_slot) (get_or-modify_same bp f c.backplanes new_backplane hb)
        ∙ put (backplane_at c bp) in
      rw e (elim (same_or_not s slot) [
        | inl k ↦ inl (
          refl,
          k,
          rw k (
              ap (λ x. get_or x slot 0) ids
              ∙ get_or-modify_same slot (λ _. id) (backplane_at c bp).node_id_by_slot 0 hs),
        )
        | inr other ↦ inr (
          inr other,
          ap (λ x. get_or x s 0) ids
              ∙ get_or-modify_other slot s (λ _. id) (backplane_at c bp).node_id_by_slot 0
                  (λ k. other (sym k)),
        )
      ])
]

pub written_sizes :
    (bp slot id : ℕ) (f : BackplaneRecord → BackplaneRecord) (c : CoreEngine)
    → ((b : BackplaneRecord) → (f b).node_id_by_slot ≡ modify slot (λ _. id) b.node_id_by_slot)
    → IsSized c (with_backplane bp f c)
written_sizes bp slot id f c put = record {
  nodes_size = refl;
  backplanes_size = length-modify bp f c.backplanes;
  slots_size = λ b. elim (modified bp b f c.backplanes new_backplane) [
    | inl (e, k) ↦ rw k (
        rw (put (backplane_at c b))
          (length-modify slot (λ _. id) (backplane_at c b).node_id_by_slot))
    | inr k ↦ rw k refl
  ];
}
