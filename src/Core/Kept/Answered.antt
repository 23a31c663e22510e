-- ===== src/Core/Kept/Answered.antt =====
-- core/core_engine.cpp: the answers, and the tables of the assignment.
use omgp.Base.{
  take, length, ℕ, zero, suc, ◌+◌, inl, inr, refl, true, not, Option, none, some, arith, Bool-cases,
  Option-cases,
}
use omgp.Protocol.{addr_module_min}
use omgp.L3.Payload.Bounds.{op_identify}
use omgp.Core.Types.{NodeRecord, DescriptorCacheEntry, reading_descriptor}
use omgp.Core.Engine.{CoreEngine, node_index, node_at, entry_at, with_node, with_entry}
use omgp.Core.Descriptors.{find_descriptor, mark_discovered}
use omgp.Core.Slots.{id_pool}
use omgp.Core.Slots.Assigned.{IsSamePlace}
use omgp.Core.Slots.Moves.{with_node-IsUnmoved}
use omgp.Core.Kept.Asked.{
  Still, Still-trans, here, outside, mark_discovered-IsUnmoved, renamed, still,
}
use omgp.Link.Types.{FrameFields}
use omgp.L3.Types.{IdentifyResp}
use omgp.L3.Payload.Fixed.{decode_identify_resp}
use omgp.Core.Descriptors.{
  claim_at, or_else, find_entry, is_reclaimable, claim_descriptor, attach_from, attach_descriptor,
  reads,
}
use omgp.Core.Answers.{
  message_of, queue_chunk, drop_entry, give_up, start_read, identified, no_identity, on_identify,
  stalled, learn_model, finish_read,
}

claim_at-Still :
    (module_type desc_len crc : ℕ) (o : Option ℕ) (c : CoreEngine)
    → Still c (claim_at module_type desc_len crc o c).0
unfolding claim_at
claim_at-Still module_type desc_len crc none c = here c
claim_at-Still module_type desc_len crc (some idx) c = outside c _ refl refl

claim_descriptor-Still :
    (module_type desc_len crc : ℕ) (c : CoreEngine)
    → Still c (claim_descriptor module_type desc_len crc c).0
unfolding claim_descriptor
claim_descriptor-Still module_type desc_len crc c =
    let free =
      or_else (find_entry (λ e. not e.in_use) 0 c.descriptors)
        (find_entry (is_reclaimable c.nodes) 0 c.descriptors) in
    ground (arith, here c, claim_at-Still module_type desc_len crc free c)

attach_from-Still : (n idx at : ℕ) (c : CoreEngine) → Still c (attach_from n idx at c)
unfolding attach_from
attach_from-Still zero idx at c = here c
attach_from-Still (suc n) idx at c = elim (Bool-cases (reads (entry_at c at) (node_at c idx))) [
  | inl e ↦
      let c1 = mark_discovered idx (addr_module_min + idx) at c in
      rw (attach_from, e)
        (Still-trans (still (mark_discovered-IsUnmoved idx (addr_module_min + idx) at c))
          (attach_from-Still n (idx + 1) at c1))
  | inr e ↦ rw (attach_from, e) (attach_from-Still n (idx + 1) at c)
]

attach_descriptor-Still : (at : ℕ) (c : CoreEngine) → Still c (attach_descriptor at c)
unfolding attach_descriptor
attach_descriptor-Still at c = attach_from-Still id_pool 0 at c

pub entry_changed :
    (at : ℕ) (f : DescriptorCacheEntry → DescriptorCacheEntry) (c : CoreEngine)
    → Still c (with_entry at f c)
entry_changed at f c = outside c (with_entry at f c) refl refl

pub queued : (node_id offset : ℕ) (c : CoreEngine) → Still c (queue_chunk node_id offset c).1
queued node_id offset c = outside c (queue_chunk node_id offset c).1 refl refl

pub given_up : (idx at : ℕ) (c : CoreEngine) → Still c (give_up idx at c)
given_up idx at c =
    let c1 : CoreEngine = drop_entry at c in
    Still-trans (outside c c1 refl refl) (still (renamed idx c1))

-- A change of a node's record that leaves its place.
pub node_changed :
    (idx : ℕ) (f : NodeRecord → NodeRecord) (c : CoreEngine)
    → ((n : NodeRecord) → IsSamePlace n (f n))
    → Still c (with_node idx f c)
node_changed idx f c keep = still (with_node-IsUnmoved idx f c keep)

start_read-Still :
    (idx : ℕ) (resp : IdentifyResp) (c : CoreEngine) → Still c (start_read idx resp c)
unfolding start_read
start_read-Still idx resp c =
    let c1 = (claim_descriptor resp.module_type resp.desc_len resp.desc_crc c).0 in
    let u = claim_descriptor-Still resp.module_type resp.desc_len resp.desc_crc c in
    elim (Option-cases (claim_descriptor resp.module_type resp.desc_len resp.desc_crc c).1) [
      | inl e ↦ rw (start_read, e) (Still-trans u (still (renamed idx c1)))
      | inr (at, e) ↦
          let whole : DescriptorCacheEntry → DescriptorCacheEntry =
            λ e. record e { complete = true } in
          let c2 : CoreEngine = with_entry at whole c1 in
          rw (start_read, e)
            (ground (
              arith,
              Still-trans u
                  (Still-trans (entry_changed at whole c1) (attach_descriptor-Still at c2)),
              Still-trans u (queued c1.tx_node 0 c1),
              Still-trans u (given_up idx at c1),
            ))
    ]

identified-Still :
    (idx : ℕ) (resp : IdentifyResp) (c : CoreEngine) → Still c (identified idx resp c)
unfolding identified
identified-Still idx resp c =
    let learn : NodeRecord → NodeRecord = λ n. record n {
      module_type = resp.module_type;
      desc_len = resp.desc_len;
      desc_crc = resp.desc_crc;
    } in
    let read : NodeRecord → NodeRecord =
      λ n. record n { discovery = reading_descriptor; desc_stalled_superframe = 0 } in
    let c1 : CoreEngine = with_node idx learn c in
    let c2 : CoreEngine = with_node idx read c1 in
    let u =
      node_changed idx learn c
        (λ n. record { in_use_same = refl; backplane_same = refl; slot_same = refl }) in
    let w = Still-trans u (
      node_changed idx read c1
        (λ n. record { in_use_same = refl; backplane_same = refl; slot_same = refl })) in
    elim (Option-cases (find_descriptor resp.module_type resp.desc_len resp.desc_crc c1)) [
      | inl e ↦ rw (identified, e) (Still-trans w (start_read-Still idx resp c2))
      | inr (at, e) ↦
          rw (identified, e)
            (ground
              (arith, w, Still-trans u (still (mark_discovered-IsUnmoved idx c1.tx_node at c1))))
    ]

pub on_identify-Still : (f : FrameFields) (c : CoreEngine) → Still c (on_identify f c)
unfolding on_identify
on_identify-Still f c = elim (Option-cases (node_index c.tx_node)) [
  | inl e ↦ rw (on_identify, e) (here c)
  | inr (idx, e) ↦ elim (Option-cases (message_of op_identify f)) [
    | inl k ↦ rw (on_identify, e) (rw k (ground (arith, here c)))
    | inr (payload, k) ↦
        let resp = (decode_identify_resp payload no_identity).1 in
        rw (on_identify, e) (rw k (ground (arith, here c, identified-Still idx resp c)))
  ]
]

pub stalled-Still : (idx : ℕ) (c : CoreEngine) → Still c (stalled idx c)
stalled-Still idx c =
    node_changed idx (λ n. record n { desc_stalled_superframe = c.superframe }) c
      (λ n. record { in_use_same = refl; backplane_same = refl; slot_same = refl })

pub finish_read-Still : (idx at : ℕ) (c : CoreEngine) → Still c (finish_read idx at c)
unfolding finish_read
finish_read-Still idx at c =
    let e = entry_at c at in
    let blob = take e.len e.blob in
    let whole : DescriptorCacheEntry → DescriptorCacheEntry = λ e.
      record (learn_model (length blob) (record { blob = blob; pos = 0 }) e) { complete = true } in
    let c1 : CoreEngine = with_entry at whole c in
    ground (
      arith,
      given_up idx at c,
      Still-trans (entry_changed at whole c) (attach_descriptor-Still at c1),
    )
