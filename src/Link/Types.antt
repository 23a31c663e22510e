-- ===== src/Link/Types.antt =====
-- link/link_types.hpp: the value types that the parts of L2 share.
use omgp.Base.{ℕ, ◌+◌, ◌*◌, ◌/◌, Bool, Bytes}
use omgp.Protocol.{max_l3_message}

pub data LinkStatus : Type 0 where
  ok payload_too_long reserved_address buffer_too_small busy not_idle : LinkStatus

abbrev pub header_len : ℕ
header_len = 4

abbrev pub crc_len : ℕ
crc_len = 2

abbrev pub max_unstuffed : ℕ
max_unstuffed = header_len + max_l3_message + crc_len

abbrev pub max_wire : ℕ
max_wire = 2 + 2 * max_unstuffed

abbrev pub addr_count : ℕ
addr_count = 16

-- The bit rate is not 0, which the source asserts.
abbrev pub byte_time_us : ℕ → ℕ
byte_time_us bit_rate = 10000000 / bit_rate

-- `payload` stands for the bytes that the pointer is read at: `len` of them in a valid value.
pub record FrameFields : Type 0 where
  pub dst : ℕ
  pub src : ℕ
  pub response : Bool
  pub retry : Bool
  pub seq : ℕ
  pub len : ℕ
  pub payload : Bytes

pub data Discard : Type 0 where
  bad_crc bad_length bad_escape too_long reserved_dst : Discard

-- `discarded` is the array indexed by `Discard`, a field for each index.
pub record DeframerStats : Type 0 where
  pub delivered : ℕ
  pub bad_crcs : ℕ
  pub bad_lengths : ℕ
  pub bad_escapes : ℕ
  pub too_longs : ℕ
  pub reserved_dsts : ℕ

pub record AddrStats : Type 0 where
  pub transactions : ℕ
  pub retries : ℕ
  pub timeouts : ℕ
  pub crc_failures : ℕ
  pub discards : ℕ
  pub replays_served : ℕ
  pub late_responses : ℕ

abbrev pub no_addr_stats : AddrStats
no_addr_stats = record {
  transactions = 0;
  retries = 0;
  timeouts = 0;
  crc_failures = 0;
  discards = 0;
  replays_served = 0;
  late_responses = 0;
}

pub record BusStats : Type 0 where
  pub rate_changes : ℕ
  pub bus_faults : ℕ
  pub discards : ℕ

abbrev pub no_bus_stats : BusStats
no_bus_stats = record { rate_changes = 0; bus_faults = 0; discards = 0 }
