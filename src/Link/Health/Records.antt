-- ===== src/Link/Health/Records.antt =====
-- link/health.cpp, apply_result and the loop of tick: the state of each node.
use omgp.Base.{ℕ, ◌+◌, ◌-◌, ◌*◌, Bool, true, false, ◌&&◌, List, [], ◌∷◌, leb, if◌then◌else◌}
use omgp.Base.Words.{u8}
use omgp.Protocol.{suspect_after_failures, offline_after_suspect_ms}

pub data HealthState : Type 0 where
  unenrolled enrolled suspect offline : HealthState

pub data Notice : Type 0 where
  node_enrolled node_suspect node_offline node_recovered bus_fault alert bus_recovered : Notice

pub record HealthRecord : Type 0 where
  pub state : HealthState
  pub consecutive_failures : ℕ
  pub suspect_since_us : ℕ
  pub last_poll_us : ℕ
  pub probe_issued_us : ℕ

abbrev pub no_record : HealthRecord
no_record = record {
  state = unenrolled;
  consecutive_failures = 0;
  suspect_since_us = 0;
  last_poll_us = 0;
  probe_issued_us = 0;
}

abbrev pub elapsed_us : ℕ → ℕ → ℕ
elapsed_us now_us since_us = if leb since_us now_us then now_us - since_us else 0

abbrev pub offline_threshold_us : ℕ
offline_threshold_us = offline_after_suspect_ms * 1000

abbrev pub is_unenrolled : HealthState → Bool
is_unenrolled unenrolled = true
is_unenrolled _ = false

abbrev pub is_enrolled : HealthState → Bool
is_enrolled enrolled = true
is_enrolled _ = false

abbrev pub is_suspect : HealthState → Bool
is_suspect suspect = true
is_suspect _ = false

abbrev pub is_offline : HealthState → Bool
is_offline offline = true
is_offline _ = false

-- The record after one result, with the notice for its node.
unfoldable pub next_record : HealthState → Bool → ℕ → HealthRecord → HealthRecord × List Notice
next_record unenrolled ok now_us r =
    if ok
    then (record r { state = enrolled; consecutive_failures = 0 }, node_enrolled ∷ [])
    else (r, [])
next_record enrolled ok now_us r =
    let failures = u8 (r.consecutive_failures + 1) in
    if ok
    then (record r { consecutive_failures = 0 }, [])
    else if leb suspect_after_failures failures
    then (
      record r { state = suspect; consecutive_failures = failures; suspect_since_us = now_us },
      node_suspect ∷ [],
    )
    else (record r { consecutive_failures = failures }, [])
next_record suspect ok now_us r =
    if ok
    then (record r { state = enrolled; consecutive_failures = 0 }, node_recovered ∷ [])
    else if leb offline_threshold_us (elapsed_us now_us r.suspect_since_us)
    then (record r { state = offline }, node_offline ∷ [])
    else (r, [])
next_record offline ok now_us r =
    if ok
    then (record r { state = enrolled; consecutive_failures = 0 }, node_recovered ∷ [])
    else (r, [])

-- tick() on one record.
unfoldable pub expire_record : ℕ → HealthRecord → HealthRecord × List Notice
expire_record now_us r =
    if is_suspect r.state && leb offline_threshold_us (elapsed_us now_us r.suspect_since_us)
    then (record r { state = offline }, node_offline ∷ [])
    else (r, [])

-- The loop of evaluate_declare(): the nodes that count as enrolled.
unfoldable pub count_enrolled : List HealthRecord → ℕ
count_enrolled [] = 0
count_enrolled (r ∷ rs) =
    let rest = count_enrolled rs in if is_unenrolled r.state then rest else u8 (rest + 1)

-- And those of them that fail.
unfoldable pub count_failing : List HealthRecord → ℕ
count_failing [] = 0
count_failing (r ∷ rs) =
    let rest = count_failing rs in
    if is_unenrolled r.state then rest else if is_enrolled r.state then rest else u8 (rest + 1)
