-- ===== src/Link/Responder/Timely.antt =====
-- When Responder::poll in link/responder.cpp transmits.
use omgp.Base.{ℕ, ◌≡◌, ◌⊎◌, false, [], Bytes, IsBytes}
use omgp.Link.Responder.{Responder, past_window}
use omgp.Link.Responder.Speaks.{Mute}
use omgp.Link.Responder.Looks.{OnTime, Late, Waits}

module _ {A : Type 0} (handle : A → Bytes → A × Bytes)
    (writes : (a : A) (bs : Bytes) → IsBytes bs → IsBytes (handle a bs).1) where
  -- Nothing more is due to be read, or no response is late.
  abbrev Settled : ℕ → Responder A → Type 0
  Settled now_us r = (r.wire.rx ≡ []) ⊎ (past_window now_us r ≡ false)

  -- What one poll may do to the wire: nothing; one response in time; or, once all the bytes that were due
  -- are read, one late response or the start of the wait for one.
  abbrev pub Timely : ℕ → Responder A → Responder A → Type 0
  Timely now_us r r' =
      Mute r r' ⊎ OnTime now_us r r' ⊎ ((r'.wire.rx ≡ []) × (Waits now_us r r' ⊎ Late now_us r r'))
