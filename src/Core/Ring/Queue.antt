-- ===== src/Core/Ring/Queue.antt =====
-- core/core_types.hpp, Ring<T, N>: the ring and a bounded queue.
use omgp.Base.{
  get_or-modify_same, ℕ, zero, suc, ◌+◌, ◌-◌, ◌%◌, ◌<◌, ◌≡◌, inl, inr, refl, ap, ap₂, ◌∙◌, Bool,
  true, false, List, [], ◌∷◌, ◌++◌, arith, ◌==◌, if◌then◌else◌, length, get_or, modify,
  length-modify, Bool-cases,
}
use omgp.Protocol.{max_nodes}
use omgp.Core.Ring.{
  Ring, IsRing, new_ring, push, pop, stored, queued, stored-modify, stored_last, ℕ-cases,
}

-- The queue that the ring promises to be: at most LIMIT_max_nodes items, the newest refused.
abbrev pub enqueue : {A : Type 0} → A → List A → Bool × List A
enqueue item q = if length q == max_nodes then (false, q) else (true, q ++ item ∷ [])

abbrev pub dequeue : {A : Type 0} → List A → A → Bool × List A × A
dequeue [] out = (false, [], out)
dequeue (a ∷ q) out = (true, q, a)

-- A call of push() with its argument, or of pop() with what its output argument holds.
pub data Op (A : Type 0) : Type 0 where
  pushed : A → Op A
  popped : A → Op A

module _ {A : Type 0} where
  pub length-stored : (n i : ℕ) (s : List A) (d : A) → length (stored n i s d) ≡ n
  length-stored zero i s d = refl
  length-stored (suc n) i s d = ap suc (length-stored n ((i + 1) % max_nodes) s d)

  get_or-default : (s : List A) (i : ℕ) (d d' : A) → i < length s → get_or s i d ≡ get_or s i d'
  get_or-default [] i d d' k = absurd (omega arith)
  get_or-default (x ∷ s) zero d d' k = refl
  get_or-default (x ∷ s) (suc i) d d' k = get_or-default s i d d' (omega arith)

  pub push-IsRing : (item : A) (r : Ring A) → IsRing r → IsRing (push item r).1
  unfolding push
  push-IsRing item r v =
      ground (arith, length-modify ((r.head + r.count) % max_nodes) (λ _. item) r.storage)

  pub pop-IsRing : (out : A) (r : Ring A) → IsRing r → IsRing (pop r out).1
  unfolding pop
  pop-IsRing out r v = ground arith

  pub new_ring-IsRing : (d : A) → IsRing (new_ring d)
  new_ring-IsRing d = record {
    storage_length = refl;
    head_lt = omega arith;
    count_le = omega arith;
  }

  -- push() on the queue that the ring holds.
  push-enqueue :
      (item d : A) (r : Ring A)
      → IsRing r
      → ((push item r).0 ≡ (enqueue item (queued r d)).0)
        × (queued (push item r).1 d ≡ (enqueue item (queued r d)).1)
  unfolding push
  push-enqueue item d r v =
      let size = length-stored r.count r.head r.storage d in
      elim (Bool-cases (r.count == max_nodes)) [
        | inl e ↦ rw size (rw e (refl, refl))
        | inr e ↦
            let room : r.count < max_nodes = ground (arith, v.count_le) in
            let one_more : r.count + 1 ≡ suc r.count = omega arith in
            let j = (r.head + r.count) % max_nodes in
            let s' : List A = modify j (λ _. item) r.storage in
            let last : get_or s' j d ≡ item =
              get_or-modify_same j (λ _. item) r.storage d (omega (arith, v.storage_length)) in
            rw size (
              rw e (
                refl,
                ap (λ n. stored n r.head s' d) one_more
                    ∙ stored_last r.count r.head s' d v.head_lt
                    ∙ ap₂ (λ x y. x ++ y ∷ [])
                        (stored-modify r.count r.head r.count item r.storage d v.head_lt
                          (omega arith) room)
                        last,
              ))
      ]

  pub pop-dequeue :
      (out d : A) (r : Ring A)
      → IsRing r
      → ((pop r out).0 ≡ (dequeue (queued r d) out).0)
        × (queued (pop r out).1 d ≡ (dequeue (queued r d) out).1)
        × ((pop r out).2 ≡ (dequeue (queued r d) out).2)
  unfolding pop
  pop-dequeue out d r v = elim (ℕ-cases r.count) [
    | inl k ↦ let e : (r.count == 0) ≡ true = ground arith in rw e (rw k (refl, refl, refl))
    | inr (n, k) ↦
        let e : (r.count == 0) ≡ false = ground arith in
        let m : r.count - 1 ≡ n = omega arith in
        rw e (
          rw m (
            rw k (
              refl,
              refl,
              get_or-default r.storage r.head out d (omega (arith, v.head_lt, v.storage_length)),
            )))
  ]

  -- What the calls return: whether they could be done, and what pop() gave.
  abbrev pub answers : List (Op A) → Ring A → List (Bool × List A)
  answers [] r = []
  answers (pushed a ∷ ops) r = let (taken, r') = push a r in (taken, []) ∷ answers ops r'
  answers (popped out ∷ ops) r = let (taken, r', a) = pop r out in (taken, a ∷ []) ∷ answers ops r'

  abbrev pub queue_answers : List (Op A) → List A → List (Bool × List A)
  queue_answers [] q = []
  queue_answers (pushed a ∷ ops) q =
      let (taken, q') = enqueue a q in (taken, []) ∷ queue_answers ops q'
  queue_answers (popped out ∷ ops) q =
      let (taken, q', a) = dequeue q out in (taken, a ∷ []) ∷ queue_answers ops q'

  answers_from :
      (ops : List (Op A)) (d : A) (r : Ring A)
      → IsRing r
      → answers ops r ≡ queue_answers ops (queued r d)
  answers_from [] d r v = refl
  answers_from (pushed a ∷ ops) d r v =
      let (e0, e1) = push-enqueue a d r v in
      rw e0 (
        ap (λ x. ((enqueue a (queued r d)).0, []) ∷ x)
          (answers_from ops d (push a r).1 (push-IsRing a r v) ∙ ap (queue_answers ops) e1))
  answers_from (popped out ∷ ops) d r v =
      let (e0, e1, e2) = pop-dequeue out d r v in
      rw e0 (
        rw e2 (
          ap (λ x. ((dequeue (queued r d) out).0, (dequeue (queued r d) out).2 ∷ []) ∷ x)
            (answers_from ops d (pop r out).1 (pop-IsRing out r v) ∙ ap (queue_answers ops) e1)))

  -- Whatever calls of push() and pop() are made of a new ring, they answer as a first-in first-out queue
  -- does that holds at most LIMIT_max_nodes items: a push onto the full queue is refused and changes
  -- nothing, a pop gives the oldest item, and nothing if there is none.
  pub answers-queue_answers :
      (ops : List (Op A)) (d : A) → answers ops (new_ring d) ≡ queue_answers ops []
  answers-queue_answers ops d = answers_from ops d (new_ring d) (new_ring-IsRing d)
