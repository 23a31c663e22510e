-- ===== src/Core/Ring.antt =====
-- core/core_types.hpp, Ring<T, N>, at N = LIMIT_max_nodes, which is the capacity of every ring of core/.
pub mod Queue
use omgp.Base.{
  get_or-modify_other, ℕ, zero, suc, ◌+◌, ◌-◌, ◌%◌, ◌≤◌, ◌<◌, ◌≡◌, ◌≢◌, ◌⊎◌, inl, inr, refl, sym,
  ap, ap₂, ◌∙◌, Bool, true, false, List, [], ◌∷◌, ◌++◌, arith, ◌==◌, if◌then◌else◌, length, get_or,
  modify, replicate, length-modify, Bool-cases,
}
use omgp.Protocol.{max_nodes}

pub record Ring (A : Type 0) : Type 0 where
  pub storage : List A
  pub head : ℕ
  pub count : ℕ

pub ℕ-cases : (n : ℕ) → (n ≡ 0) ⊎ ((m : ℕ) × (n ≡ suc m))
ℕ-cases zero = inl refl
ℕ-cases (suc m) = inr (m, refl)

module _ {A : Type 0} where
  abbrev pub new_ring : A → Ring A
  new_ring item = record { storage = replicate max_nodes item; head = 0; count = 0 }

  abbrev pub is_full : Ring A → Bool
  is_full r = r.count == max_nodes

  unfoldable pub push : A → Ring A → Bool × Ring A
  push item r = if r.count == max_nodes then (false, r) else (
    true,
    record r {
      storage = modify ((r.head + r.count) % max_nodes) (λ _. item) r.storage;
      count = r.count + 1;
    },
  )

  -- `out` is what the output argument holds before.
  unfoldable pub pop : Ring A → A → Bool × Ring A × A
  pop r out = if r.count == 0 then (false, r, out) else (
    true,
    record r { head = (r.head + 1) % max_nodes; count = r.count - 1 },
    get_or r.storage r.head out,
  )

  pub record IsRing (r : Ring A) : Type 0 where
    pub storage_length : length r.storage ≡ max_nodes
    pub head_lt : r.head < max_nodes
    pub count_le : r.count ≤ max_nodes

  -- `n` items of the storage, from index `i` on.
  abbrev pub stored : ℕ → ℕ → List A → A → List A
  stored zero i s d = []
  stored (suc n) i s d = get_or s i d ∷ stored n ((i + 1) % max_nodes) s d

  -- The queue that the ring holds, oldest first.
  abbrev pub queued : Ring A → A → List A
  queued r d = stored r.count r.head r.storage d

  pub stored-modify :
      (n i j : ℕ) (a : A) (s : List A) (d : A)
      → i < max_nodes
      → n ≤ j
      → j < max_nodes
      → stored n i (modify ((i + j) % max_nodes) (λ _. a) s) d ≡ stored n i s d
  stored-modify zero i j a s d hi hn hj = refl
  stored-modify (suc n) i zero a s d hi hn hj = absurd (omega arith)
  stored-modify (suc n) i (suc j) a s d hi hn hj =
      let next : (i + suc j) % max_nodes ≡ ((i + 1) % max_nodes + j) % max_nodes = omega arith in
      ap₂ ◌∷◌ (get_or-modify_other ((i + suc j) % max_nodes) i (λ _. a) s d (omega arith)) (
        rw next
          (stored-modify n ((i + 1) % max_nodes) j a s d (omega arith) (omega arith) (omega arith)))

  pub stored_last :
      (n i : ℕ) (s : List A) (d : A)
      → i < max_nodes
      → stored (suc n) i s d ≡ stored n i s d ++ get_or s ((i + n) % max_nodes) d ∷ []
  stored_last zero i s d h = ap (λ j. get_or s j d ∷ []) (omega arith)
  stored_last (suc n) i s d h =
      let next : ((i + 1) % max_nodes + n) % max_nodes ≡ (i + suc n) % max_nodes = omega arith in
      ap (◌∷◌ (get_or s i d)) (
        stored_last n ((i + 1) % max_nodes) s d (omega arith)
        ∙ ap (λ j. stored n ((i + 1) % max_nodes) s d ++ get_or s j d ∷ []) next)
