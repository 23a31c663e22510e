-- ===== src/Link/Responder/Requests.antt =====
-- What Responder::on_request in link/responder.cpp makes of a request.
use omgp.Base.{
  ℕ, ◌+◌, ◌≤◌, ◌<◌, ◌≡◌, ◌⊎◌, inl, inr, refl, true, false, [], ◌∷◌, ◌∙◌, ap, arith, Bytes, IsBytes,
  length, take, All-take, Bool-cases,
}
use omgp.Base.Words.{inc32}
use omgp.Protocol.{max_l3_message}
use omgp.Link.Types.{FrameFields, max_wire}
use omgp.Link.Frame.{encode_frame}
use omgp.Link.Deframer.{feed_all, new_deframer}
use omgp.Link.Deframer.Invariant.{IsDelivered, encode_frame-feed_all}
use omgp.Link.Responder.{
  Responder, scheduled, acceptable, discard, answer, response, serve_replay, on_request, store,
  schedule, is_replay,
}
use omgp.Link.Responder.Invariant.{IsValid, IsResponse, Stored, answer_cases}

module _ {A : Type 0} where
  -- `r'` is to send, one turnaround after `t`, bytes that decode to the response `g` to `f`.
  pub record WillSend (g f : FrameFields) (t : ℕ) (r r' : Responder A) : Type 0 where
    pub state_eq : r'.state ≡ scheduled
    pub end_eq : r'.request_end_us ≡ t
    pub deadline_eq : r'.deadline_us ≡ t + r.turnaround_us
    pub answers : IsResponse r.my_addr f.src f.seq g
    pub decodes : (feed_all r'.buffer.bytes new_deframer).1 ≡ g ∷ []

  -- The request came to nothing: no answer is scheduled for it, and what is stored stays.
  pub record Dropped (r r' : Responder A) : Type 0 where
    pub discards_eq : r'.stats.discards ≡ inc32 r.stats.discards
    pub state_eq : r'.state ≡ r.state
    pub buffer_eq : r'.buffer ≡ r.buffer
    pub transactions_eq : r'.stats.transactions ≡ r.stats.transactions

  -- The stored response is sent again, and the handler is not asked.
  pub record Replayed (f : FrameFields) (t : ℕ) (r r' : Responder A) : Type 0 where
    pub app_eq : r'.app ≡ r.app
    pub buffer_eq : r'.buffer ≡ r.buffer
    pub replays_eq : r'.stats.replays_served ≡ inc32 r.stats.replays_served
    pub transactions_eq : r'.stats.transactions ≡ r.stats.transactions
    pub will_send : (g : FrameFields) × WillSend g f t r r'

  -- The handler's answer `payload` is sent, and its new state `app` kept.
  pub record Served (f : FrameFields) (t : ℕ) (app : A) (payload : Bytes) (r r' : Responder A)
      : Type 0 where
    pub app_eq : r'.app ≡ app
    pub transactions_eq : r'.stats.transactions ≡ inc32 r.stats.transactions
    pub replays_eq : r'.stats.replays_served ≡ r.stats.replays_served
    pub my_addr_eq : r'.my_addr ≡ r.my_addr
    pub stored_valid : r'.buffer.valid ≡ true
    pub stored_seq : r'.buffer.seq ≡ f.seq
    pub stored_peer : r'.buffer.peer ≡ f.src
    pub will_send :
        (g : FrameFields) × (g.payload ≡ payload) × (g.retry ≡ f.retry) × WillSend g f t r r'

  discard-Dropped : (r : Responder A) → Dropped r (discard r)
  unfolding discard
  discard-Dropped r = record {
    discards_eq = refl;
    state_eq = refl;
    buffer_eq = refl;
    transactions_eq = refl;
  }

  Stored-decodes :
      (r : Responder A) (s : Stored r.my_addr r.buffer)
      → (feed_all r.buffer.bytes new_deframer).1 ≡ s.0 ∷ []
  Stored-decodes r (g, q, e) =
      ap (λ bs. (feed_all bs new_deframer).1) e ∙ (encode_frame-feed_all g q.delivered).1

  replay-stored :
      (f : FrameFields) (r : Responder A)
      → is_replay r f ≡ true
      → IsValid r
      → (g : FrameFields) × IsResponse r.my_addr f.src f.seq g
        × ((feed_all r.buffer.bytes new_deframer).1 ≡ g ∷ [])
  unfolding is_replay
  replay-stored f r h v = elim (v.buffer_stored) [
    | inl e ↦ ground arith
    | inr s ↦ (s.0, ground arith, Stored-decodes r s)
  ]

  serve_replay-Replayed :
      (f : FrameFields) (t : ℕ) (r : Responder A)
      → is_replay r f ≡ true
      → IsValid r
      → Replayed f t r (serve_replay t r)
  unfolding serve_replay schedule
  serve_replay-Replayed f t r h v =
      let (g, q, e) = replay-stored f r h v in
      record {
        app_eq = refl;
        buffer_eq = refl;
        replays_eq = refl;
        transactions_eq = refl;
        will_send = (
          g,
          record { state_eq = refl; end_eq = refl; deadline_eq = refl; answers = q; decodes = e },
        );
      }

  store-Served :
      (f : FrameFields) (t : ℕ) (app : A) (payload : Bytes) (r : Responder A)
      → IsResponse r.my_addr f.src f.seq (response r f payload)
      → Served f t app payload r (
          schedule t
            (store f (encode_frame (response r f payload) max_wire).1 (record r { app = app })))
  unfolding schedule store response
  store-Served f t app payload r q = record {
    app_eq = refl;
    transactions_eq = refl;
    replays_eq = refl;
    my_addr_eq = refl;
    stored_valid = refl;
    stored_seq = refl;
    stored_peer = refl;
    will_send = (
      response r f payload,
      refl,
      refl,
      record {
        state_eq = refl;
        end_eq = refl;
        deadline_eq = refl;
        answers = q;
        decodes = (encode_frame-feed_all (response r f payload) q.delivered).1;
      },
    );
  }

  answer-Served :
      (f : FrameFields) (t : ℕ) (app : A) (payload : Bytes) (r : Responder A)
      → IsDelivered f
      → acceptable r f ≡ true
      → IsBytes payload
      → let r' = answer f t payload (record r { app = app }) in
        ((max_l3_message < length payload) × Dropped r r' × (r'.app ≡ app))
        ⊎ ((length payload ≤ max_l3_message) × Served f t app payload r r')
  unfolding acceptable response discard
  answer-Served f t app payload r q a b =
      elim (answer_cases f t payload (record r { app = app }) q a b) [
        | inl (e, long) ↦ rw e (
            inl (
              long,
              record {
                discards_eq = refl;
                state_eq = refl;
                buffer_eq = refl;
                transactions_eq = refl;
              },
              refl,
            ))
        | inr (e, s) ↦
            rw e (inr (omega (arith, s.delivered.len_le), store-Served f t app payload r s))
      ]

-- What on_request() does with `f`: it drops a request that is not this node's to answer; it replays
-- what is stored; or it asks the handler, whose new state stays even where its answer is too long.
abbrev pub Outcome :
    {A : Type 0} → (A → Bytes → A × Bytes) → FrameFields → ℕ → Responder A → Responder A → Type 0
Outcome handle f t r r' =
    let (app', payload) = handle r.app (take f.len f.payload) in
    ((acceptable r f ≡ false) × Dropped r r' × (r'.app ≡ r.app))
    ⊎ ((acceptable r f ≡ true) × (is_replay r f ≡ true) × Replayed f t r r')
    ⊎ ((acceptable r f ≡ true)
        × (is_replay r f ≡ false)
        × (((max_l3_message < length payload) × Dropped r r' × (r'.app ≡ app'))
            ⊎ ((length payload ≤ max_l3_message) × Served f t app' payload r r')))

module _ {A : Type 0} (handle : A → Bytes → A × Bytes)
    (writes : (a : A) (bs : Bytes) → IsBytes bs → IsBytes (handle a bs).1) where
  -- What becomes of a request that arrives while the node listens, for a handler that writes bytes.
  -- A frame that is not a request to this node from a valid address is counted as a discard, and the
  -- handler never sees it. A request with the retry bit that has the sequence number and the requester of
  -- the stored answer, whatever its payload, is answered from the replay buffer: the handler is not
  -- asked, and its state stays. (FR-015 as amended on 2026-09-11 has such a request discarded where its
  -- payload is not that of the request that was answered; the code does not compare payloads.) Any other
  -- request is handed to the handler once. Both answers are scheduled one turnaround after the request's end, and what will be sent
  -- decodes to a response from this node to the requester, with the request's sequence number; in the
  -- second case with the handler's payload. An answer longer than a message is counted as a discard,
  -- and leaves what was stored and scheduled alone.
  pub on_request-Outcome :
      (f : FrameFields) (t : ℕ) (r : Responder A)
      → IsDelivered f
      → IsValid r
      → Outcome handle f t r (on_request handle f t r)
  unfolding on_request discard
  on_request-Outcome f t r q v = elim (Bool-cases (acceptable r f)) [
    | inr refused ↦ rw refused (inl (refl, discard-Dropped r, refl))
    | inl taken ↦ elim (Bool-cases (is_replay r f)) [
      | inl again ↦
          rw taken (rw again (inr (inl (refl, refl, serve_replay-Replayed f t r again v))))
      | inr fresh ↦
          let (app', payload) = handle r.app (take f.len f.payload) in
          let b = writes r.app _ (All-take (λ x. x < 256) f.len f.payload q.fields.payload_bytes) in
          rw taken (rw fresh (inr (inr (refl, refl, answer-Served f t app' payload r q taken b))))
    ]
  ]
