-- ===== src/Messages.antt =====
-- The messages of the protocol (ice-qjournal-protocol/QJournalProtocol.proto) that the journal
-- reads and writes, with `uint64` fields as numbers below 2 ^ 64, and the conversions between
-- `uint64_t` and `long` that C++ makes where the two meet.
use jn_server_cc.Base.{ℕ, ◌-◌, ◌^◌, ◌%◌, Bool, Option, ltb, if◌then◌else◌, ℤ, pos, negsuc}

pub record SegmentState : Type 0 where
  pub start_txid : ℕ
  pub end_txid : ℕ
  pub is_in_progress : Bool

pub record PaxosData : Type 0 where
  pub segment_state : SegmentState
  pub accepted_in_epoch : ℕ

-- The optional fields of the answer to `prepareRecovery`.
pub record PrepareRecoveryResponse : Type 0 where
  pub segment_state : Option SegmentState
  pub accepted_in_epoch : Option ℕ
  pub last_writer_epoch : ℕ
  pub last_committed_txid : Option ℕ

-- A message as it is made: every field 0 or absent.
abbrev pub default_segment : SegmentState
default_segment = record { start_txid = 0; end_txid = 0; is_in_progress = Bool.false }

abbrev pub u64_mod : ℕ
u64_mod = 2 ^ 64

-- `long` to `uint64_t`: the same 64 bits.
abbrev pub to_u64 : ℤ → ℕ
to_u64 (pos n) = n % 2 ^ 64
to_u64 (negsuc n) = 2 ^ 64 - 1 - n % 2 ^ 64

-- `uint64_t` to `long`.
abbrev pub to_long : ℕ → ℤ
to_long n = if ltb n (2 ^ 63) then pos n else negsuc (2 ^ 64 - 1 - n)
