-- ===== src/Link/Health/Transitions.antt =====
-- How the state of a node may change in link/health.cpp.
use omgp.Base.{ℕ, ◌≡◌, ◌⊎◌, inl, inr, refl, sym, subst, ◌∙◌, List, [], ◌∷◌, Bool, true, arith}
use omgp.Link.Health.Records.{
  HealthState, unenrolled, enrolled, suspect, offline, HealthRecord, next_record, expire_record,
}

-- The edges of the state machine.
infix 40 ◌⟶◌
pub data ◌⟶◌ : HealthState → HealthState → Type 0 where
  enrol : unenrolled ⟶ enrolled
  suspected : enrolled ⟶ suspect
  recover : suspect ⟶ enrolled
  lost : suspect ⟶ offline
  return : offline ⟶ enrolled

-- From state to state in order, each step along one edge at most.
pub data Follows : HealthState → List HealthState → Type 0 where
  end : {s : HealthState} → Follows s []
  stay : {s : HealthState} {us : List HealthState} → Follows s us → Follows s (s ∷ us)
  move : {s u : HealthState} {us : List HealthState} → s ⟶ u → Follows u us → Follows s (u ∷ us)

-- One edge at most, in equations.
abbrev pub Changes : HealthState → HealthState → Type 0
Changes s u =
    (u ≡ s)
    ⊎ ((s ≡ unenrolled) × (u ≡ enrolled))
    ⊎ ((s ≡ enrolled) × (u ≡ suspect))
    ⊎ ((s ≡ suspect) × (u ≡ enrolled))
    ⊎ ((s ≡ suspect) × (u ≡ offline))
    ⊎ ((s ≡ offline) × (u ≡ enrolled))

pub Changes-Follows :
    (s u : HealthState) (us : List HealthState) → Changes s u → Follows u us → Follows s (u ∷ us)
Changes-Follows s u us (inl e) f = subst (λ x. Follows x (u ∷ us)) e (stay f)
Changes-Follows s u us (inr (inl (e, k))) f = move (rw e (rw k enrol)) f
Changes-Follows s u us (inr (inr (inl (e, k)))) f = move (rw e (rw k suspected)) f
Changes-Follows s u us (inr (inr (inr (inl (e, k))))) f = move (rw e (rw k recover)) f
Changes-Follows s u us (inr (inr (inr (inr (inl (e, k)))))) f = move (rw e (rw k lost)) f
Changes-Follows s u us (inr (inr (inr (inr (inr (e, k)))))) f = move (rw e (rw k return)) f

-- What an answer does to the state, and what the passage of time does.
abbrev pub Rises : HealthState → HealthState → Type 0
Rises s u = (u ≡ s) ⊎ (u ≡ enrolled)

abbrev pub Expires : HealthState → HealthState → Type 0
Expires s u = (u ≡ s) ⊎ ((s ≡ suspect) × (u ≡ offline))

pub Rises-trans : (s t u : HealthState) → Rises s t → Rises t u → Rises s u
Rises-trans s t u p q = ground arith

pub Expires-trans : (s t u : HealthState) → Expires s t → Expires t u → Expires s u
Expires-trans s t u (inl e) q = subst (λ x. Expires x u) e q
Expires-trans s t u (inr (a, e)) (inl k) = inr (a, k ∙ e)
Expires-trans s t u (inr (a, e)) (inr (b, k)) = inr (a, k)

pub enrolled-Changes : (s u : HealthState) → u ≡ enrolled → Changes s u
enrolled-Changes unenrolled u e = inr (inl (refl, e))
enrolled-Changes enrolled u e = inl e
enrolled-Changes suspect u e = inr (inr (inr (inl (refl, e))))
enrolled-Changes offline u e = inr (inr (inr (inr (inr (refl, e)))))

pub Changes-Rises : (s t u : HealthState) → Changes s t → Rises t u → Changes s u
Changes-Rises s t u c (inl e) = subst (Changes s) (sym e) c
Changes-Rises s t u c (inr e) = enrolled-Changes s u e

pub Expires-Changes : (s u : HealthState) → Expires s u → Changes s u
Expires-Changes s u (inl e) = inl e
Expires-Changes s u (inr k) = inr (inr (inr (inr (inl k))))

pub Rises-Changes : (s u : HealthState) → Rises s u → Changes s u
Rises-Changes s u (inl e) = inl e
Rises-Changes s u (inr e) = enrolled-Changes s u e

pub next_record-Rises :
    (s : HealthState) (now_us : ℕ) (r : HealthRecord)
    → r.state ≡ s
    → Rises r.state (next_record s true now_us r).0.state
unfolding next_record
next_record-Rises unenrolled now_us r e = inr refl
next_record-Rises enrolled now_us r e = inl refl
next_record-Rises suspect now_us r e = inr refl
next_record-Rises offline now_us r e = inr refl

pub next_record-Changes :
    (s : HealthState) (ok : Bool) (now_us : ℕ) (r : HealthRecord)
    → r.state ≡ s
    → Changes r.state (next_record s ok now_us r).0.state
unfolding next_record
next_record-Changes unenrolled ok now_us r e = ground arith
next_record-Changes enrolled ok now_us r e = ground arith
next_record-Changes suspect ok now_us r e = ground arith
next_record-Changes offline ok now_us r e = ground arith

pub expire_record-Expires :
    (now_us : ℕ) (r : HealthRecord) → Expires r.state (expire_record now_us r).0.state
unfolding expire_record
expire_record-Expires now_us r = ground arith
