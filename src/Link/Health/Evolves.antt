-- ===== src/Link/Health/Evolves.antt =====
-- The states of the nodes over the calls of link/health.cpp.
use omgp.Base.{
  ◌&&◌, ◌||◌, ℕ, zero, suc, ◌+◌, ◌≡◌, ◌⊎◌, inl, inr, refl, ◌∙◌, subst, Bool, true, List, [], ◌∷◌,
  arith, ◌==◌, get_or, modify, Bool-cases,
}
use omgp.Protocol.{addr_backplane_min, trunk_bit_rate, trunk_bit_rate_fallback}
use omgp.Link.Health.Records.{
  HealthState, Notice, HealthRecord, no_record, next_record, expire_record,
}
use omgp.Link.Health.Tracker.{
  HealthTracker, record_at, notify, notify_all, apply_result, note_wire_rate, note_probe, declare,
  evaluate_declare, apply_seen, unfault, end_fault, clear_fault, has_bit, backplane_count,
  is_node_addr,
}
use omgp.Link.Health.Results.{
  is_answerer, late_stranded_probe, fallback_answer, outcome_in, note_fallback_answer, judge,
  step_pass, resolve, on_result, expire_from, tick,
}
use omgp.Link.Types.{addr_count}
use omgp.Link.Health.Transitions.{
  Changes, Rises, Expires, Rises-trans, Expires-trans, Changes-Rises, Expires-Changes,
  Rises-Changes, next_record-Changes, next_record-Rises, expire_record-Expires,
}

module _ {A : Type 0} where
  pub get_or-modify :
      (i j : ℕ) (f : A → A) (xs : List A) (d : A)
      → (get_or (modify i f xs) j d ≡ get_or xs j d)
        ⊎ ((i ≡ j) × (get_or (modify i f xs) j d ≡ f (get_or xs j d)))
  get_or-modify i j f [] d = inl refl
  get_or-modify zero zero f (x ∷ xs) d = inr (refl, refl)
  get_or-modify zero (suc j) f (x ∷ xs) d = inl refl
  get_or-modify (suc i) zero f (x ∷ xs) d = inl refl
  get_or-modify (suc i) (suc j) f (x ∷ xs) d = ground (arith, get_or-modify i j f xs d)

-- From `t` to `t'` the state of every node has changed as `R` says.
pub record Evolves (R : HealthState → HealthState → Type 0) (t t' : HealthTracker) : Type 0 where
  pub change : (addr : ℕ) → R (record_at t addr).state (record_at t' addr).state

pub Evolves-weaken :
    (R S : HealthState → HealthState → Type 0) (t t' : HealthTracker)
    → ((s u : HealthState) → R s u → S s u)
    → Evolves R t t'
    → Evolves S t t'
Evolves-weaken R S t t' w e = record { change = λ addr. w _ _ (e.change addr) }

pub Evolves-trans :
    (a b c : HealthTracker) → Evolves Rises a b → Evolves Rises b c → Evolves Rises a c
Evolves-trans a b c p q = record {
  change = λ addr.
      Rises-trans (record_at a addr).state (record_at b addr).state (record_at c addr).state
        (p.change addr) (q.change addr);
}

pub same_records : (t t' : HealthTracker) → t'.records ≡ t.records → Evolves Rises t t'
same_records t t' e = record { change = λ addr. rw e (inl refl) }

-- The records are the same at first.
pub ahead :
    (R : HealthState → HealthState → Type 0) (t t1 t' : HealthTracker)
    → t1.records ≡ t.records
    → Evolves R t1 t'
    → Evolves R t t'
ahead R t t1 t' e k = record {
  change = λ addr.
      subst (λ rs. R (get_or rs addr no_record).state (record_at t' addr).state) e (k.change addr);
}

pub modified :
    (R : HealthState → HealthState → Type 0) (refl_R : (s : HealthState) → R s s) (i : ℕ)
    (f : HealthRecord → HealthRecord) (t t' : HealthTracker)
    → t'.records ≡ modify i f t.records
    → R (record_at t i).state (f (record_at t i)).state
    → Evolves R t t'
modified R refl_R i f t t' same e = record {
  change = λ addr. elim (get_or-modify i addr f t.records no_record) [
    | inl k ↦ rw same (rw k (refl_R _))
    | inr (q, k) ↦
        rw same (rw k (subst (λ x. R (record_at t x).state (f (record_at t x)).state) q e))
  ];
}

notify_all-records :
    (ns : List Notice) (addr : ℕ) (t : HealthTracker) → (notify_all ns addr t).records ≡ t.records
unfolding notify
notify_all-records [] addr t = refl
notify_all-records (n ∷ ns) addr t = notify_all-records ns addr (notify n addr t)

apply_result-records :
    (addr : ℕ) (ok : Bool) (now_us : ℕ) (t : HealthTracker)
    → (apply_result addr ok now_us t).records
      ≡ modify addr
          (λ _. (next_record (record_at t addr).state ok now_us (record_at t addr)).0)
          t.records
unfolding apply_result
apply_result-records addr ok now_us t =
    let (r, ns) = next_record (record_at t addr).state ok now_us (record_at t addr) in
    notify_all-records ns addr (record t { records = modify addr (λ _. r) t.records })

apply_result-Changes :
    (addr : ℕ) (ok : Bool) (now_us : ℕ) (t : HealthTracker)
    → Evolves Changes t (apply_result addr ok now_us t)
apply_result-Changes addr ok now_us t =
    modified Changes (λ s. inl refl) addr
      (λ _. (next_record (record_at t addr).state ok now_us (record_at t addr)).0) t
      (apply_result addr ok now_us t) (apply_result-records addr ok now_us t)
      (next_record-Changes (record_at t addr).state ok now_us (record_at t addr) refl)

apply_result-Rises :
    (addr now_us : ℕ) (t : HealthTracker) → Evolves Rises t (apply_result addr true now_us t)
apply_result-Rises addr now_us t =
    modified Rises (λ s. inl refl) addr
      (λ _. (next_record (record_at t addr).state true now_us (record_at t addr)).0) t
      (apply_result addr true now_us t) (apply_result-records addr true now_us t)
      (next_record-Rises (record_at t addr).state now_us (record_at t addr) refl)

pub note_wire_rate-records :
    (bit_rate : ℕ) (t : HealthTracker) → (note_wire_rate bit_rate t).records ≡ t.records
unfolding note_wire_rate
note_wire_rate-records bit_rate t = ground arith

pub note_probe-Evolves :
    (addr bit_rate now_us : ℕ) (t : HealthTracker)
    → Evolves Rises t (note_probe addr bit_rate now_us t)
unfolding note_probe
note_probe-Evolves addr bit_rate now_us t =
    modified Rises (λ s. inl refl) addr (λ r. record r { probe_issued_us = now_us }) t
      (note_probe addr bit_rate now_us t) refl (inl refl)

evaluate_declare-records :
    (now_us : ℕ) (t : HealthTracker) → (evaluate_declare now_us t).records ≡ t.records
unfolding evaluate_declare declare notify
evaluate_declare-records now_us t = ground arith

apply_seen-Evolves :
    (n addr now_us : ℕ) (t : HealthTracker) → Evolves Rises t (apply_seen n addr now_us t)
unfolding apply_seen
apply_seen-Evolves zero addr now_us t = same_records t t refl
apply_seen-Evolves (suc n) addr now_us t = elim (Bool-cases (has_bit t.bus.fallback_seen addr)) [
  | inl e ↦
      rw (apply_seen, e)
        (Evolves-trans _ _ _ (apply_result-Rises addr now_us t)
          (apply_seen-Evolves n (addr + 1) now_us (apply_result addr true now_us t)))
  | inr e ↦ rw (apply_seen, e) (apply_seen-Evolves n (addr + 1) now_us t)
]

end_fault-records : (t : HealthTracker) → (end_fault t).records ≡ t.records
unfolding end_fault notify
end_fault-records t = refl

unfault-records : (bit_rate : ℕ) (t : HealthTracker) → (unfault bit_rate t).records ≡ t.records
unfolding unfault
unfault-records bit_rate t = refl

pub clear_fault-Evolves :
    (bit_rate now_us : ℕ) (t : HealthTracker) → Evolves Rises t (clear_fault bit_rate now_us t)
unfolding clear_fault
clear_fault-Evolves bit_rate now_us t =
    let t1 = note_wire_rate bit_rate (unfault bit_rate t) in
    let e1 = note_wire_rate-records bit_rate (unfault bit_rate t) ∙ unfault-records bit_rate t in
    elim (Bool-cases (bit_rate == trunk_bit_rate_fallback)) [
      | inl e ↦
          let t2 = apply_seen backplane_count addr_backplane_min now_us t1 in
          rw (clear_fault, e)
            (Evolves-trans _ _ _ (same_records t t1 e1) (
              Evolves-trans _ _ _ (apply_seen-Evolves backplane_count addr_backplane_min now_us t1)
                (same_records t2 (end_fault t2) (end_fault-records t2))))
      | inr e ↦ rw (clear_fault, e) (same_records t (end_fault t1) (end_fault-records t1 ∙ e1))
    ]

judge-Evolves :
    (addr : ℕ) (ok : Bool) (now_us : ℕ) (t : HealthTracker)
    → Evolves Changes t (judge addr ok now_us t)
unfolding judge outcome_in note_fallback_answer
judge-Evolves addr ok now_us t =
    elim (Bool-cases (is_answerer addr ok t || late_stranded_probe addr now_us t)) [
      | inl e ↦
          rw (judge, e) (Evolves-weaken Rises Changes _ _ Rises-Changes (same_records t _ refl))
      | inr e ↦ elim (Bool-cases (fallback_answer addr ok t)) [
        | inl k ↦
            rw (judge, e)
              (rw k
                (Evolves-weaken Rises Changes _ _ Rises-Changes (same_records t _ (ground arith))))
        | inr k ↦
            rw (judge, e)
              (rw k (
                ahead Changes t (outcome_in addr t) _ refl
                  (apply_result-Changes addr ok now_us (outcome_in addr t))))
      ]
    ]

step_pass-records : (addr : ℕ) (t : HealthTracker) → (step_pass addr t).1.records ≡ t.records
unfolding step_pass
step_pass-records addr t = ground arith

resolve-Evolves :
    (proves ended : Bool) (now_us : ℕ) (t : HealthTracker)
    → Evolves Rises t (resolve proves ended now_us t)
unfolding resolve
resolve-Evolves proves ended now_us t = elim (Bool-cases (t.bus.fault && proves)) [
  | inl e ↦ rw (resolve, e) (clear_fault-Evolves trunk_bit_rate now_us t)
  | inr e ↦ elim (Bool-cases ended) [
    | inl k ↦ rw (resolve, e) (rw k (clear_fault-Evolves trunk_bit_rate_fallback now_us t))
    | inr k ↦ rw (resolve, e) (rw k (same_records t t refl))
  ]
]

then_Rises : (a b c : HealthTracker) → Evolves Changes a b → Evolves Rises b c → Evolves Changes a c
then_Rises a b c p q = record {
  change = λ addr.
      Changes-Rises (record_at a addr).state (record_at b addr).state (record_at c addr).state
        (p.change addr) (q.change addr);
}

pub on_result-Evolves :
    (addr : ℕ) (ok : Bool) (now_us : ℕ) (t : HealthTracker)
    → Evolves Changes t (on_result addr ok now_us t)
unfolding on_result
on_result-Evolves addr ok now_us t = elim (Bool-cases (is_node_addr addr)) [
  | inr e ↦
      rw (on_result, e) (Evolves-weaken Rises Changes _ _ Rises-Changes (same_records t t refl))
  | inl e ↦
      let t1 = judge addr ok now_us t in
      let (ended, t2) = step_pass addr t1 in
      rw (on_result, e)
        (then_Rises t t1 _ (judge-Evolves addr ok now_us t) (
          ahead Rises t1 t2 _ (step_pass-records addr t1) (
            Evolves-trans _ _ _ (resolve-Evolves _ ended now_us t2)
              (same_records _ _ (evaluate_declare-records now_us _)))))
]

expire_from-Evolves :
    (n addr now_us : ℕ) (t : HealthTracker) → Evolves Expires t (expire_from n addr now_us t)
unfolding expire_from
expire_from-Evolves zero addr now_us t = record { change = λ a. inl refl }
expire_from-Evolves (suc n) addr now_us t =
    let (r, ns) = expire_record now_us (record_at t addr) in
    let t1 = record t { records = modify addr (λ _. r) t.records } in
    let t2 = notify_all ns addr t1 in
    let first =
      modified Expires (λ s. inl refl) addr (λ _. r) t t2 (notify_all-records ns addr t1)
        (expire_record-Expires now_us (record_at t addr)) in
    let rest = expire_from-Evolves n (addr + 1) now_us t2 in
    record {
      change = λ a.
          Expires-trans (record_at t a).state (record_at t2 a).state
            (record_at (expire_from n (addr + 1) now_us t2) a).state (first.change a)
            (rest.change a);
    }

pub tick-Evolves : (now_us : ℕ) (t : HealthTracker) → Evolves Changes t (tick now_us t)
unfolding tick
tick-Evolves now_us t =
    then_Rises t (expire_from addr_count 0 now_us t) _
      (Evolves-weaken Expires Changes _ _ Expires-Changes
        (expire_from-Evolves addr_count 0 now_us t))
      (same_records _ _ (evaluate_declare-records now_us (expire_from addr_count 0 now_us t)))
