-- ===== src/Link/Master/Attempts.antt =====
-- All that link/master.cpp sends for one request.
use omgp.Base.{
  ℕ, ◌≤◌, ◌≡◌, inl, inr, refl, ◌∙◌, ap, false, List, [], ◌∷◌, ◌++◌, arith, ltb, Bytes, IsBytes,
  length, get_or,
}
use omgp.Protocol.{max_l3_message}
use omgp.Link.Types.{ok, FrameFields, max_wire}
use omgp.Link.Wire.{RxByte, Transmission}
use omgp.Link.Frame.{encode_frame}
use omgp.Link.Deframer.{feed_all, new_deframer}
use omgp.Link.Master.Invariant.{
  IsValid, begin_cases, begin-IsValid, opened-IsValid, drain_wire-IsValid,
}
use omgp.Link.Master.Transmissions.{
  Quiet, Quiet-trans, drain_wire-Quiet, expire-Quiet, Sends, fire_pending-Sends, poll-Sends,
  request-decodes, Run, start, polled, received, receive, Run-IsValid,
}
use omgp.Link.Master.{
  Master, no_event, request, do_transmit, drain_wire, expire, fire_pending, poll, opened, begin,
}

-- The transmissions of the request `f`, the newest first: each decodes to `f`, with the retry bit on all
-- but the first.
abbrev pub Attempts : FrameFields → List Transmission → Type 0
Attempts f [] = Unit {0}
Attempts f (tx ∷ txs) =
    ((feed_all tx.bytes new_deframer).1 ≡ record f { retry = ltb 0 (length txs) } ∷ [])
    × Attempts f txs

-- What was sent on top of `before` are the attempts of `f`, which is what `m` is about.
record IsAttempting (f : FrameFields) (before : List Transmission) (m : Master) : Type 0 where
  txs : List Transmission
  sent_eq : m.wire.sent ≡ txs ++ before
  attempts : Attempts f txs
  attempts_eq : m.attempt_count ≡ length txs
  request_eq : request m ≡ record f { retry = ltb 0 m.attempt_count }

fire_pending-request :
    (now_us : ℕ) (m : Master)
    → request (fire_pending now_us m)
      ≡ record (request m) { retry = ltb 0 (fire_pending now_us m).attempt_count }
unfolding fire_pending do_transmit request
fire_pending-request now_us m = ground arith

-- A transmission that may follow.
Sends-IsAttempting :
    (f : FrameFields) (before : List Transmission) (now_us : ℕ) (m m' : Master)
    → IsValid m
    → Sends now_us m m'
    → request m' ≡ record (request m) { retry = ltb 0 m'.attempt_count }
    → IsAttempting f before m
    → IsAttempting f before m'
Sends-IsAttempting f before now_us m m' v (inl (s, a)) e k = record {
  txs = k.txs;
  sent_eq = s ∙ k.sent_eq;
  attempts = k.attempts;
  attempts_eq = a ∙ k.attempts_eq;
  request_eq =
      e ∙ ap {A = FrameFields} (λ g. record g { retry = ltb 0 m'.attempt_count }) k.request_eq;
}
Sends-IsAttempting f before now_us m m' v (inr (s, a)) e k = record {
  txs = record { bytes = (encode_frame (request m) max_wire).1; at_us = now_us } ∷ k.txs;
  sent_eq =
      s
      ∙ ap (λ l. record { bytes = (encode_frame (request m) max_wire).1; at_us = now_us } ∷ l)
          k.sent_eq;
  attempts = (
    request-decodes m v
        ∙ ap (λ g. g ∷ []) (k.request_eq ∙ ap (λ n. record f { retry = ltb 0 n }) k.attempts_eq),
    k.attempts,
  );
  attempts_eq = omega (arith, a, k.attempts_eq);
  request_eq =
      e ∙ ap {A = FrameFields} (λ g. record g { retry = ltb 0 m'.attempt_count }) k.request_eq;
}

poll-request :
    (now_us : ℕ) (m : Master)
    → request (poll now_us m).0
      ≡ record (request m) { retry = ltb 0 (poll now_us m).0.attempt_count }
unfolding poll
poll-request now_us m =
    let (m1, event) = drain_wire m no_event in
    let (m2, event') = expire now_us m1 event in
    let q = Quiet-trans (drain_wire-Quiet m no_event) (expire-Quiet now_us m1 event) in
    fire_pending-request now_us m2
    ∙ ap {A = FrameFields} (λ g. record g { retry = ltb 0 (fire_pending now_us m2).attempt_count })
        q.request_eq

receive-IsAttempting :
    (f : FrameFields) (before : List Transmission) (rs : List RxByte) (m : Master)
    → IsAttempting f before m
    → IsAttempting f before (receive rs m)
unfolding receive request
receive-IsAttempting f before rs m k = record {
  txs = k.txs;
  sent_eq = k.sent_eq;
  attempts = k.attempts;
  attempts_eq = k.attempts_eq;
  request_eq = k.request_eq;
}

Run-IsAttempting :
    {m m' : Master} (f : FrameFields) (before : List Transmission)
    → Run m m'
    → IsValid m
    → IsAttempting f before m
    → IsAttempting f before m'
Run-IsAttempting f before start v k = k
Run-IsAttempting f before (polled {m'} r now_us) v k =
    let v' = Run-IsValid r v in
    Sends-IsAttempting f before now_us m' (poll now_us m').0 v' (poll-Sends now_us m' v')
      (poll-request now_us m') (Run-IsAttempting f before r v k)
Run-IsAttempting f before (received {m'} r rs b) v k =
    receive-IsAttempting f before rs m' (Run-IsAttempting f before r v k)

-- The request that begin() opens.
abbrev pub asked : ℕ → Bytes → Master → FrameFields
asked dst payload m = record {
  dst = dst;
  src = m.host_addr;
  response = false;
  retry = false;
  seq = get_or m.next_seq dst 0;
  len = length payload;
  payload = payload;
}

opened-IsAttempting :
    (dst : ℕ) (payload : Bytes) (now_us : ℕ) (m m1 : Master)
    → Quiet m m1
    → length payload ≤ max_l3_message
    → IsAttempting (asked dst payload m) m.wire.sent (opened dst payload now_us m1)
unfolding opened request
opened-IsAttempting dst payload now_us m m1 q h = record {
  txs = [];
  sent_eq = q.sent_eq;
  attempts = tt;
  attempts_eq = refl;
  request_eq = ground (arith, q.request_eq, q.next_seq_eq);
}

-- All that the host sends for an accepted begin(), whatever arrives and however often it is polled.
-- Each transmission decodes to one frame: from the host to the node that begin() names, with its
-- payload and with the sequence number that was next for that node, the same each time; the retry bit
-- is on all transmissions but the first.
pub begin-Attempts :
    (dst : ℕ) (payload : Bytes) (now_us : ℕ) (m m' : Master)
    → IsValid m
    → IsBytes payload
    → (begin dst payload now_us m).1 ≡ ok
    → Run (begin dst payload now_us m).0 m'
    → (txs : List Transmission) × (m'.wire.sent ≡ txs ++ m.wire.sent)
      × Attempts (asked dst payload m) txs
begin-Attempts dst payload now_us m m' v b h r = elim (begin_cases dst payload now_us m) [
  | inl (_, refused) ↦ absurd (refused h)
  | inr (e, _, short, lt) ↦
      let m1 = (drain_wire m no_event).0 in
      let m2 = opened dst payload now_us m1 in
      let v2 = opened-IsValid dst payload now_us m1 lt short b (drain_wire-IsValid m no_event v) in
      let k2 = opened-IsAttempting dst payload now_us m m1 (drain_wire-Quiet m no_event) short in
      let k3 =
        Sends-IsAttempting (asked dst payload m) m.wire.sent now_us m2 (fire_pending now_us m2) v2
          (fire_pending-Sends now_us m2 (omega (arith, v2.attempts_le)))
          (fire_pending-request now_us m2) k2 in
      let same = ap (λ x. x.0) e in
      let k =
        Run-IsAttempting (asked dst payload m) m.wire.sent r
          (begin-IsValid dst payload now_us m b v) (rw same k3) in
      (k.txs, k.sent_eq, k.attempts)
]
