-- ===== src/Link/Master/Answers.antt =====
-- Which frames link/master.cpp takes for the answer to the open transaction.
use omgp.Base.{ℕ, ◌++◌, ◌≤◌, ◌<◌, ◌≡◌, true, List, [], ◌∷◌, some, ◌==◌, if◌then◌else◌}
use omgp.Protocol.{flag_byte}
use omgp.Link.Types.{FrameFields}
use omgp.Link.Wire.{RxByte}
use omgp.Link.Deframer.{Deframer, feed}
use omgp.Link.Deframer.Invariant.{IsDelivered}
use omgp.Link.Master.{Master, awaiting}

-- The start bit of the last FLAG among the bytes; `t` if there is none.
abbrev pub last_flag_us : List RxByte → ℕ → ℕ
last_flag_us [] t = t
last_flag_us (r ∷ rs) t = last_flag_us rs (if r.byte == flag_byte then r.start_us else t)

-- The deframer, once it has taken the bytes.
abbrev pub fed : List RxByte → Deframer → Deframer
fed [] d = d
fed (r ∷ rs) d = fed rs (feed r.byte d).0

-- `f` is a frame from the polled node to the host, with the transaction's sequence number. The byte
-- `closing` of `rs` completes it, and the FLAG before that one, with which it opened, came at an instant
-- inside the response window.
pub record IsAnswer (m : Master) (rs : List RxByte) (f : FrameFields) : Type 0 where
  pub awaited : awaiting m ≡ true
  pub delivered : IsDelivered f
  pub is_response : f.response ≡ true
  pub src_eq : f.src ≡ m.dst
  pub dst_eq : f.dst ≡ m.host_addr
  pub seq_eq : f.seq ≡ m.seq
  pub before : List RxByte
  pub closing : RxByte
  pub after : List RxByte
  pub split_eq : rs ≡ before ++ closing ∷ after
  pub completes : (feed closing.byte (fed before m.deframer)).1 ≡ some f
  pub after_request : m.window_start_us ≤ last_flag_us before m.resp_open_us
  pub in_time : last_flag_us before m.resp_open_us < m.deadline

-- The transaction that `m'` is in, still unanswered, is that of `m`.
record Same (m m' : Master) : Type 0 where
  awaited : awaiting m ≡ true
  dst_eq : m'.dst ≡ m.dst
  host_eq : m'.host_addr ≡ m.host_addr
  seq_eq : m'.seq ≡ m.seq
  window_eq : m'.window_start_us ≡ m.window_start_us
  deadline_eq : m'.deadline ≡ m.deadline
  open_eq : m'.resp_open_us ≡ m.resp_open_us
  deframer_eq : m'.deframer ≡ m.deframer

abbrev open_after : RxByte → Master → ℕ
open_after r m = if r.byte == flag_byte then r.start_us else m.resp_open_us

abbrev emptied : Master → Master
emptied m = record m { wire = record (m.wire) { rx = [] } }
