-- ===== src/Link/Health/Runs.antt =====
-- The life of the tracker of link/health.cpp: the calls that the program above makes.
use omgp.Base.{ℕ, Bool, List, [], ◌∷◌}
use omgp.Link.Health.Tracker.{HealthTracker, new_tracker}
use omgp.Link.Health.Results.{on_result, tick}
use omgp.Link.Health.Probes.{mark_polled, next_probe, set_bit_rate}
use omgp.Link.Health.Invariant.{IsValid}
use omgp.Link.Health.Preserved.{
  on_result-IsValid, tick-IsValid, mark_polled-IsValid, next_probe-IsValid, set_bit_rate-IsValid,
  new_tracker-IsValid,
}

pub data Call : Type 0 where
  result : ℕ → Bool → ℕ → Call
  ticked : ℕ → Call
  polled : ℕ → ℕ → Call
  probed : ℕ → Call
  rate_set : ℕ → Call

abbrev pub call : Call → HealthTracker → HealthTracker
call (result addr ok now_us) t = on_result addr ok now_us t
call (ticked now_us) t = tick now_us t
call (polled addr now_us) t = mark_polled addr now_us t
call (probed now_us) t = (next_probe now_us t).0
call (rate_set bps) t = set_bit_rate bps t

abbrev pub run : List Call → HealthTracker → HealthTracker
run [] t = t
run (c ∷ cs) t = run cs (call c t)

call-IsValid : (c : Call) (t : HealthTracker) → IsValid t → IsValid (call c t)
call-IsValid (result addr ok now_us) t v = on_result-IsValid addr ok now_us t v
call-IsValid (ticked now_us) t v = tick-IsValid now_us t v
call-IsValid (polled addr now_us) t v = mark_polled-IsValid addr now_us t v
call-IsValid (probed now_us) t v = next_probe-IsValid now_us t v
call-IsValid (rate_set bps) t v = set_bit_rate-IsValid bps t v

run_from-IsValid : (cs : List Call) (t : HealthTracker) → IsValid t → IsValid (run cs t)
run_from-IsValid [] t v = v
run_from-IsValid (c ∷ cs) t v = run_from-IsValid cs (call c t) (call-IsValid c t v)

-- Whatever calls are made of a new tracker, in whatever order and at whatever instants, it is valid
-- afterwards: a node with three failures in a row is not enrolled, the bit rates are one of the two, a
-- pass over the nodes is open only in a fault, and a pass that waits for a node has nodes left, so that
-- its count never wraps.
pub run-IsValid : (cs : List Call) → IsValid (run cs new_tracker)
run-IsValid cs = run_from-IsValid cs new_tracker new_tracker-IsValid
