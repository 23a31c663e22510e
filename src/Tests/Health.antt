-- ===== src/Tests/Health.antt =====
-- link/health.cpp: node 3 answers, fails, is lost and comes back.
use omgp.Base.{ℕ, ◌≡◌, refl, List, [], ◌∷◌, true, false, arith}
use mathlib.Core.List.{Memᴰ}
use omgp.Link.Health.Records.{suspect, next_record, count_enrolled, count_failing}
use omgp.Link.Health.Tracker.{
  new_tracker, record_at, notify, apply_result, note_wire_rate, note_probe, evaluate_declare,
  declare, drop_stale,
}
use omgp.Link.Health.Results.{
  judge, outcome_in, note_fallback_answer, step_pass, resolve, on_result,
}
use omgp.Link.Health.Probes.{next_probe, give_up_waiting, alternate, probe_scan}
use omgp.Link.Health.Runs.{Call, result, probed, run, run-IsValid}
use omgp.Link.Health.Invariant.{IsValid}
use omgp.Link.Health.Transitions.{Follows}
use omgp.Link.Health.Paths.{states, run-Follows}
use omgp.Link.Health.Rotation.{probed_addrs, next_probe_reaches}

abbrev failures : List Call
failures = result 3 false 20 ∷ result 3 false 30 ∷ result 3 false 40 ∷ []

abbrev calls : List Call
calls = probed 0 ∷ result 3 true 10 ∷ failures

abbrev instants : List ℕ
instants = 1 ∷ 2 ∷ 3 ∷ 4 ∷ 5 ∷ 6 ∷ 7 ∷ 8 ∷ 9 ∷ 10 ∷ 11 ∷ 12 ∷ 13 ∷ 14 ∷ 15 ∷ []

three_failures : (record_at (run calls new_tracker) 3).state ≡ suspect
unfolding next_probe give_up_waiting alternate probe_scan note_probe note_wire_rate on_result judge
    outcome_in note_fallback_answer step_pass resolve evaluate_declare declare drop_stale
    next_record apply_result notify count_enrolled count_failing
three_failures = refl

-- The only node that there is fails: so does the bus.
bus_of_one : (run calls new_tracker).bus.fault ≡ true
unfolding next_probe give_up_waiting alternate probe_scan note_probe note_wire_rate on_result judge
    outcome_in note_fallback_answer step_pass resolve evaluate_declare declare drop_stale
    next_record apply_result notify count_enrolled count_failing
bus_of_one = refl

run-IsValid_example : IsValid (run calls new_tracker)
run-IsValid_example = run-IsValid calls

run-Follows_example : Follows (record_at new_tracker 3).state (states calls new_tracker 3)
run-Follows_example = run-Follows calls new_tracker 3

next_probe_reaches_example : Memᴰ 7 (probed_addrs instants new_tracker)
next_probe_reaches_example =
    next_probe_reaches instants 7 new_tracker refl (omega arith) (omega arith) refl (omega arith)
