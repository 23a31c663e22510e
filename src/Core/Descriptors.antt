-- ===== src/Core/Descriptors.antt =====
-- core/core_engine.cpp: the cache of the descriptors. Entries and nodes are named by their indices.
use omgp.Base.{
  ℕ, zero, suc, ◌+◌, ◌-◌, Bool, true, false, not, ◌&&◌, ◌||◌, List, [], ◌∷◌, Option, none, some,
  ltb, ◌==◌, if◌then◌else◌,
}
use omgp.Base.Words.{u32}
use omgp.Protocol.{addr_module_min, addr_module_max, max_descriptor_bytes}
use omgp.Core.Types.{
  DiscoveryState, reading_descriptor, discovered, NodeRecord, DescriptorCacheEntry, new_entry,
  node_discovered, node_rediscovered,
}
use omgp.Core.Engine.{CoreEngine, node_at, entry_at, with_node, with_entry, enqueue_lifecycle}

abbrev pub is_reading : DiscoveryState → Bool
is_reading reading_descriptor = true
is_reading _ = false

abbrev pub is_discovered : DiscoveryState → Bool
is_discovered discovered = true
is_discovered _ = false

abbrev pub has_key : ℕ → ℕ → ℕ → DescriptorCacheEntry → Bool
has_key module_type desc_len crc e =
    e.in_use && (e.module_type == module_type && (e.len == desc_len && e.desc_crc == crc))

-- The first entry with the key, `idx` the index of the first in the list.
unfoldable pub find_entry : (DescriptorCacheEntry → Bool) → ℕ → List DescriptorCacheEntry → Option ℕ
find_entry test idx [] = none
find_entry test idx (e ∷ es) =
    let rest = find_entry test (idx + 1) es in if test e then some idx else rest

unfoldable pub find_descriptor : ℕ → ℕ → ℕ → CoreEngine → Option ℕ
find_descriptor module_type desc_len crc c =
    find_entry (has_key module_type desc_len crc) 0 c.descriptors

-- The node reads what the entry is filled with.
abbrev pub reads : DescriptorCacheEntry → NodeRecord → Bool
reads e node =
    node.in_use
    && (is_reading node.discovery
        && (node.module_type == e.module_type
            && (node.desc_len == e.len && node.desc_crc == e.desc_crc)))

unfoldable pub descriptor_has_reader : DescriptorCacheEntry → List NodeRecord → Bool
descriptor_has_reader e [] = false
descriptor_has_reader e (node ∷ nodes) =
    let rest = descriptor_has_reader e nodes in if reads e node then true else rest

abbrev pub key_descriptor : ℕ → ℕ → ℕ → DescriptorCacheEntry
key_descriptor module_type desc_len crc = record new_entry {
  in_use = true;
  module_type = module_type;
  desc_crc = crc;
  len = desc_len;
}

abbrev pub is_reclaimable : List NodeRecord → DescriptorCacheEntry → Bool
is_reclaimable nodes e = not (not (e.refcount == 0) || descriptor_has_reader e nodes)

unfoldable pub claim_at : ℕ → ℕ → ℕ → Option ℕ → CoreEngine → CoreEngine × Option ℕ
claim_at module_type desc_len crc none c = (c, none)
claim_at module_type desc_len crc (some idx) c =
    (with_entry idx (λ _. key_descriptor module_type desc_len crc) c, some idx)

abbrev pub or_else : Option ℕ → Option ℕ → Option ℕ
or_else none o = o
or_else (some i) o = some i

unfoldable pub claim_descriptor : ℕ → ℕ → ℕ → CoreEngine → CoreEngine × Option ℕ
claim_descriptor module_type desc_len crc c =
    if ltb max_descriptor_bytes desc_len
    then (c, none)
    else claim_at module_type desc_len crc
        (or_else (find_entry (λ e. not e.in_use) 0 c.descriptors)
          (find_entry (is_reclaimable c.nodes) 0 c.descriptors))
        c

-- The node at index `idx`, whose id is `node_id`, gets the entry at index `at`.
unfoldable pub mark_discovered : ℕ → ℕ → ℕ → CoreEngine → CoreEngine
mark_discovered idx node_id at c =
    let e = entry_at c at in
    let node = node_at c idx in
    let c1 =
      with_node idx
        (λ n. record n {
          descriptor = some at;
          model_vendor = e.model_vendor;
          model_hw_rev = e.model_hw_rev;
          model_fw_rev = e.model_fw_rev;
          discovery = discovered;
          ever_discovered = true;
        })
        (with_entry at (λ x. record x { refcount = u32 (x.refcount + 1) }) c) in
    (enqueue_lifecycle
      (record {
        kind = if node.ever_discovered then node_rediscovered else node_discovered;
        node_id = node_id;
        slot = node.slot;
      })
      c1).1

-- The loop of attach_descriptor() over `n` nodes, from index `idx` on.
unfoldable pub attach_from : ℕ → ℕ → ℕ → CoreEngine → CoreEngine
attach_from zero idx at c = c
attach_from (suc n) idx at c = attach_from n (idx + 1) at (
    if reads (entry_at c at) (node_at c idx)
    then mark_discovered idx (addr_module_min + idx) at c
    else c)

unfoldable pub attach_descriptor : ℕ → CoreEngine → CoreEngine
attach_descriptor at c = attach_from (addr_module_max - addr_module_min + 1) 0 at c

unfoldable pub release_at : Option ℕ → ℕ → CoreEngine → CoreEngine
release_at none idx c = c
release_at (some at) idx c =
    with_node idx (λ n. record n { descriptor = none })
      (with_entry at (λ e. record e { refcount = e.refcount - 1 }) c)

-- The count stops at 0.
unfoldable pub release_descriptor : ℕ → CoreEngine → CoreEngine
release_descriptor idx c = release_at (node_at c idx).descriptor idx c
