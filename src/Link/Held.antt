-- ===== src/Link/Held.antt =====
-- link/responder.hpp, held_ with held_head_ and held_count_: the ring of requests that wait while a
-- late response is pending.
use omgp.Base.{ℕ, ◌+◌, ◌-◌, ◌%◌, ◌≤◌, ◌<◌, ◌≡◌, List, [], ◌∷◌, ◌++◌, arith, ◌==◌, if◌then◌else◌}
use omgp.Link.Types.{FrameFields}

-- kHeldRequests.
abbrev pub held_requests : ℕ
held_requests = 2

pub record HeldRequest : Type 0 where
  pub f : FrameFields
  pub request_end_us : ℕ

pub record Ring : Type 0 where
  pub slot0 : HeldRequest
  pub slot1 : HeldRequest
  pub head : ℕ
  pub count : ℕ

unfoldable pub slot : Ring → ℕ → HeldRequest
slot h i = if i == 0 then h.slot0 else h.slot1

set_slot : ℕ → HeldRequest → Ring → Ring
set_slot i q h = if i == 0 then record h { slot0 = q } else record h { slot1 = q }

-- held_[(held_head_ + held_count_) % kHeldRequests] = q; held_count_++
unfoldable pub append_held : HeldRequest → Ring → Ring
unfolding set_slot
append_held q h =
    let h' = set_slot ((h.head + h.count) % held_requests) q h in record h' { count = h'.count + 1 }

unfoldable pub drop_held : Ring → Ring
drop_held h = record h { head = (h.head + 1) % held_requests; count = h.count - 1 }

-- The requests that wait, oldest first.
pub to_list : Ring → List HeldRequest
unfolding slot
to_list h =
    if h.count == 0
    then []
    else if h.count == 1
    then slot h h.head ∷ []
    else slot h h.head ∷ slot h ((h.head + 1) % held_requests) ∷ []

pub record IsRing (h : Ring) : Type 0 where
  pub head_lt : h.head < held_requests
  pub count_le : h.count ≤ held_requests

pub append_held-IsRing :
    (q : HeldRequest) (h : Ring) → IsRing h → h.count < held_requests → IsRing (append_held q h)
unfolding append_held
append_held-IsRing q h v k = ground arith

pub drop_held-IsRing : (h : Ring) → IsRing h → IsRing (drop_held h)
unfolding drop_held
drop_held-IsRing h v = ground arith

-- The ring is a queue: a new request goes to the end.
pub to_list-append_held :
    (q : HeldRequest) (h : Ring)
    → IsRing h
    → h.count < held_requests
    → to_list (append_held q h) ≡ to_list h ++ q ∷ []
unfolding to_list append_held
to_list-append_held q h v k = ground arith

-- And the oldest one is taken from the front.
pub to_list-drop_held :
    (h : Ring) → IsRing h → 0 < h.count → to_list h ≡ slot h h.head ∷ to_list (drop_held h)
unfolding to_list drop_held
to_list-drop_held h v k = ground arith
