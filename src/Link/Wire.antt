-- ===== src/Link/Wire.antt =====
-- link/byte_wire.hpp: the byte transport that the engines drive, by its contract. `rx` holds the
-- bytes that are due with the instants of their start bits, oldest first; `sent` holds what was
-- transmitted with the instants it began at, newest first. Instants are microseconds of the one
-- clock of link/clock.hpp, whose 64 bits are taken not to run out.
use omgp.Base.{ℕ, ◌+◌, ◌*◌, List, ◌∷◌, Bytes, length}
use omgp.Link.Types.{byte_time_us}

pub record RxByte : Type 0 where
  pub byte : ℕ
  pub start_us : ℕ

pub record Transmission : Type 0 where
  pub bytes : Bytes
  pub at_us : ℕ

pub record Wire : Type 0 where
  pub rx : List RxByte
  pub sent : List Transmission
  pub bit_rate : ℕ

-- The instant of the final stop bit.
abbrev pub tx_end : Wire → Bytes → ℕ → ℕ
tx_end w bytes now_us = now_us + length bytes * byte_time_us w.bit_rate

abbrev pub transmit : Wire → Bytes → ℕ → Wire
transmit w bytes now_us = record w { sent = record { bytes = bytes; at_us = now_us } ∷ w.sent }
