-- ===== src/Link/Deframer/Stream.antt =====
-- Whole frames and streams of frames through the Deframer of link/frame.cpp.
use omgp.Base.{
  ℕ, ◌≤◌, ◌≡◌, ◌≢◌, refl, ap, ◌∙◌, ◌⊎◌, inl, inr, List, [], ◌∷◌, ◌++◌, map, append_assoc, Option,
  none, some, arith, Bytes, length, All,
}
use omgp.Base.Words.{inc32}
use omgp.Protocol.{flag_byte, max_l3_message}
use omgp.Link.Frame.{unstuffed, stuff, wire_frame, encode_frame}
use omgp.Link.Frame.Fields.{IsFields, on_wire}
use omgp.Link.Frame.Bounds.{length-unstuffed, encode_frame_ok}
use omgp.Link.Types.{ok, FrameFields, max_wire}
use omgp.Link.Deframer.{
  Deframer, in_frame, hunting, feed, feed_all, inspect, cons_some, conclude, new_deframer,
}
use omgp.Link.Deframer.RoundTrip.{feed_all-stuff, inspect-unstuffed}

-- A FLAG opens the next frame in every state.
pub feed-flag_byte :
    (d : Deframer) → ((feed flag_byte d).0.state ≡ in_frame) × ((feed flag_byte d).0.buf ≡ [])
unfolding feed
feed-flag_byte d = ground arith

cons_some-append :
    (o : Option FrameFields) (fs gs : List FrameFields)
    → cons_some o (fs ++ gs) ≡ cons_some o fs ++ gs
cons_some-append none fs gs = refl
cons_some-append (some f) fs gs = refl

pub feed_all-append :
    (xs ys : Bytes) (d : Deframer)
    → feed_all (xs ++ ys) d
      ≡ ((feed_all ys (feed_all xs d).0).0, (feed_all xs d).1 ++ (feed_all ys (feed_all xs d).0).1)
unfolding feed_all
feed_all-append [] ys d = refl
feed_all-append (x ∷ xs) ys d =
    let d' = (feed x d).0 in
    let ih = feed_all-append xs ys d' in
    let tail =
      cons_some-append (feed x d).1 (feed_all xs d').1 (feed_all ys (feed_all xs d').0).1 in
    ground (arith, ih, tail)

-- The state behind a delivered frame.
abbrev pub after_delivery : Deframer → Deframer
after_delivery d = record {
  state = in_frame;
  buf = [];
  stats = record (d.stats) { delivered = inc32 d.stats.delivered };
}

close_unstuffed :
    (f : FrameFields) (d : Deframer)
    → IsFields f
    → f.dst ≢ 0xff
    → d.state ≡ in_frame
    → feed_all (flag_byte ∷ []) (record d { buf = unstuffed f })
      ≡ (after_delivery d, on_wire f ∷ [])
unfolding feed_all feed conclude
close_unstuffed f d v ne e = ground (arith, inspect-unstuffed f v ne)

feed_all-body :
    (f : FrameFields) (d : Deframer)
    → IsFields f
    → f.dst ≢ 0xff
    → f.len ≤ max_l3_message
    → d.state ≡ in_frame
    → d.buf ≡ []
    → feed_all (stuff (unstuffed f) ++ flag_byte ∷ []) d ≡ (after_delivery d, on_wire f ∷ [])
feed_all-body f d v ne small e b =
    feed_all-stuff (unstuffed f) d (flag_byte ∷ []) e
      (omega (arith, length-unstuffed f v, ap length b))
    ∙ ap (λ x. feed_all (flag_byte ∷ []) (record d { buf = x ++ unstuffed f })) b
    ∙ close_unstuffed f d v ne e

feed_all-wire_frame :
    (f : FrameFields) (d : Deframer)
    → IsFields f
    → f.dst ≢ 0xff
    → f.len ≤ max_l3_message
    → feed_all (wire_frame f) d
      ≡ (after_delivery (feed flag_byte d).0, cons_some (feed flag_byte d).1 (on_wire f ∷ []))
unfolding feed_all wire_frame
feed_all-wire_frame f d v ne small =
    let opened = feed-flag_byte d in
    let body = feed_all-body f (feed flag_byte d).0 v ne small opened.0 opened.1 in
    ground (arith, body)

-- Decoding undoes encoding. A deframer in any state that is fed what the encoder wrote for `f`
-- delivers `f`, its sequence number cut to four bits, with the last byte. Before that it delivers at
-- most what the opening FLAG closes, and it ends in a frame with an empty accumulator, with one more
-- delivery counted than after that FLAG and no further discard.
pub feed_all-encode_frame :
    (f : FrameFields) (cap : ℕ) (d : Deframer)
    → IsFields f
    → (encode_frame f cap).0 ≡ ok
    → feed_all (encode_frame f cap).1 d
      ≡ (after_delivery (feed flag_byte d).0, cons_some (feed flag_byte d).1 (on_wire f ∷ []))
feed_all-encode_frame f cap d v h =
    let (written, small, ne) = encode_frame_ok f cap h in
    ap (λ w. feed_all w d) written ∙ feed_all-wire_frame f d v ne small

feed_all-flag_byte :
    (d : Deframer)
    → feed_all (flag_byte ∷ []) d ≡ ((feed flag_byte d).0, cons_some (feed flag_byte d).1 [])
unfolding feed_all
feed_all-flag_byte d = refl

-- Resynchronisation. Whatever bytes stand before an encoded frame, and in whatever state the
-- deframer meets them, the frame is delivered, behind just the frames that those bytes and one FLAG
-- deliver by themselves.
pub feed_all_resynchronises :
    (noise : Bytes) (f : FrameFields) (cap : ℕ) (d : Deframer)
    → IsFields f
    → (encode_frame f cap).0 ≡ ok
    → (feed_all (noise ++ (encode_frame f cap).1) d).1
      ≡ (feed_all (noise ++ flag_byte ∷ []) d).1 ++ on_wire f ∷ []
feed_all_resynchronises noise f cap d v h =
    let d' = (feed_all noise d).0 in
    let whole = feed_all-append noise (encode_frame f cap).1 d in
    let opened = feed_all-append noise (flag_byte ∷ []) d in
    let last = feed_all-encode_frame f cap d' v h in
    let assoc =
      append_assoc (feed_all noise d).1 (cons_some (feed flag_byte d').1 []) (on_wire f ∷ []) in
    let split = cons_some-append (feed flag_byte d').1 [] (on_wire f ∷ []) in
    ground (arith, whole, opened, last, feed_all-flag_byte d', assoc, split)

-- Frames that follow one another on the wire.
pub wire_frames : List FrameFields → Bytes
wire_frames [] = []
wire_frames (f ∷ fs) = (encode_frame f max_wire).1 ++ wire_frames fs

abbrev pub Sendable : FrameFields → Type 0
Sendable f = IsFields f × ((encode_frame f max_wire).0 ≡ ok)

-- With an empty accumulator and no escape open, a FLAG delivers nothing.
pub feed-flag_byte_idle :
    (d : Deframer)
    → d.buf ≡ []
    → (d.state ≡ hunting) ⊎ (d.state ≡ in_frame)
    → (feed flag_byte d).1 ≡ none
unfolding feed conclude inspect
feed-flag_byte_idle d b e = ground arith

feed_all-wire_frames :
    (fs : List FrameFields) (d : Deframer)
    → All Sendable fs
    → d.buf ≡ []
    → (d.state ≡ hunting) ⊎ (d.state ≡ in_frame)
    → (feed_all (wire_frames fs) d).1 ≡ map on_wire fs
unfolding wire_frames feed_all
feed_all-wire_frames [] d s b e = refl
feed_all-wire_frames (f ∷ fs) d s b e =
    let d' = after_delivery (feed flag_byte d).0 in
    let first = feed_all-encode_frame f max_wire d s.0.0 s.0.1 in
    let whole = feed_all-append (encode_frame f max_wire).1 (wire_frames fs) d in
    let ih = feed_all-wire_frames fs d' s.1 refl (inr refl) in
    ground (arith, first, whole, ih, feed-flag_byte_idle d b e)

-- A new deframer that is fed any number of encoded frames, one behind the other, delivers those
-- frames in their order, and nothing else.
pub feed_all-stream :
    (fs : List FrameFields)
    → All Sendable fs
    → (feed_all (wire_frames fs) new_deframer).1 ≡ map on_wire fs
feed_all-stream fs s = feed_all-wire_frames fs new_deframer s refl (inl refl)
