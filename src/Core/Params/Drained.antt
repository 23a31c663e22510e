-- ===== src/Core/Params/Drained.antt =====
-- core/core_engine.cpp, drain_callbacks: what it delivers.
use omgp.Base.{ℕ, zero, suc, ◌≡◌, Bool, true, false, List, [], ◌∷◌, ◌++◌, append-nil, append-nil}
use omgp.Core.Ring.{Ring, IsRing, pop, queued}
use omgp.Core.Types.{LifecycleEvent, ParamResultDelivery}
use omgp.Core.Engine.{CoreEngine, no_lifecycle, no_delivery}
use omgp.Core.Params.{Delivery, on_lifecycle, on_param_result, Callbacks, release_request_id}

abbrev pub lifecycles : CoreEngine → List LifecycleEvent
lifecycles c = queued c.pending_lifecycle no_lifecycle

abbrev pub results : CoreEngine → List ParamResultDelivery
results c = queued c.pending_param_results no_delivery

-- At most `n` deliveries of the notices and of the results, each in their order, by turns as long as there
-- are both; `turn` says that a result is next.
abbrev pub told : ℕ → Bool → List LifecycleEvent → List ParamResultDelivery → List Delivery
told zero turn ls ps = []
told (suc n) turn [] [] = []
told (suc n) turn (l ∷ ls) [] = on_lifecycle l ∷ told n true ls []
told (suc n) turn [] (p ∷ ps) = on_param_result p.id p.result ∷ told n false [] ps
told (suc n) true (l ∷ ls) (p ∷ ps) = on_param_result p.id p.result ∷ told n false (l ∷ ls) ps
told (suc n) false (l ∷ ls) (p ∷ ps) = on_lifecycle l ∷ told n true ls (p ∷ ps)

-- Both rings are sound.
pub record AreRings (c : CoreEngine) : Type 0 where
  pub lifecycle_ring : IsRing c.pending_lifecycle
  pub results_ring : IsRing c.pending_param_results

-- The rings hold what they held, and perhaps more behind it; and whose turn it is stays.
pub record Adds (c c' : CoreEngine) : Type 0 where
  pub rings : AreRings c'
  pub more_lifecycles : List LifecycleEvent
  pub lifecycles_eq : lifecycles c' ≡ lifecycles c ++ more_lifecycles
  pub more_results : List ParamResultDelivery
  pub results_eq : results c' ≡ results c ++ more_results
  pub turn_eq : c'.next_is_param ≡ c.next_is_param

-- The callbacks may add to the rings of what the application is told, and take nothing from them: of the
-- engine's functions only drain_callbacks() takes from them, and a call from a callback returns at once.
abbrev pub OnlyAdds : {App : Type 0} → Callbacks App → Type 0
OnlyAdds {App = App} callbacks =
    (d : Delivery) (app : App) (c : CoreEngine) → AreRings c → Adds c (callbacks d app c).1

-- The rings hold these items, and perhaps more behind them.
record Holds (ls : List LifecycleEvent) (ps : List ParamResultDelivery) (c : CoreEngine)
    : Type 0 where
  rings : AreRings c
  ls_rest : List LifecycleEvent
  ls_eq : lifecycles c ≡ ls ++ ls_rest
  ps_rest : List ParamResultDelivery
  ps_eq : results c ≡ ps ++ ps_rest

-- The oldest item is popped.
record Popped {A : Type 0} (r : Ring A) (d a : A) (q : List A) : Type 0 where
  got : (pop r d).0 ≡ true
  item_eq : (pop r d).2 ≡ a
  rest_eq : queued (pop r d).1 d ≡ q
  rest_ring : IsRing (pop r d).1

-- The engine once a result is taken, and once a notice is.
abbrev without_result : CoreEngine → CoreEngine
without_result c =
    let (got, ring, delivery) = pop c.pending_param_results no_delivery in
    record (release_request_id delivery.id (record c { pending_param_results = ring })) {
      next_is_param = false;
    }

abbrev without_lifecycle : CoreEngine → CoreEngine
without_lifecycle c = record c {
  pending_lifecycle = (pop c.pending_lifecycle no_lifecycle).1;
  next_is_param = true;
}
