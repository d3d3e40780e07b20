-- ===== src/Journal/Requests/Steady.antt =====
-- The steps behind the checks of a request leave the promise and the serial number alone.
use jn_server_cc.Base.{refl, Bool, List, [], ◌∷◌, Option, none, some, Bytes, ℤ, arith, ◌>>=◌}
use jn_server_cc.Base.Moves.{Moves}
use jn_server_cc.Host.{Host}
use jn_server_cc.Messages.{SegmentState, PaxosData}
use jn_server_cc.EditLog.File.{EditLogFile}
use jn_server_cc.Journal.State.{Call, RequestInfo}
use jn_server_cc.Journal.Epochs.Order.{abort_cur_segment-SameEpoch}
use jn_server_cc.Journal.Epochs.Promise.{SameEpoch, same_epoch_rules}
use jn_server_cc.Journal.Scanning.{
  scan_log, move_aside_empty, latest_or, latest_of, scan_storage_for_latest_edits, segment_state_of,
  get_segment_info,
}
use jn_server_cc.Journal.Segments.{
  purge_paxos_decision, check_not_overwriting, update_writer_epoch, open_segment, begin_segment,
  write_records, long_sum, advance, write_batch, validated, renamed_to, finalize_file,
}
use jn_server_cc.Journal.Recovery.{
  get_persisted_paxos_data, complete_half_done, persisted, persist_paxos_data, sync_log,
  raise_highest, lower_highest, synchronize,
}

module _ ⦃host : Host⦄ where
  scan_log-SameEpoch : (l : EditLogFile) → Moves SameEpoch (scan_log l)
  unfolding scan_log
  scan_log-SameEpoch l = record {
    at = λ j. record { promise = ground arith; serial = ground arith };
  }

  move_aside_empty-SameEpoch : (l : EditLogFile) → Moves SameEpoch (move_aside_empty l)
  unfolding move_aside_empty
  move_aside_empty-SameEpoch l = record { at = λ j. record { promise = refl; serial = refl } }

  latest_or-SameEpoch :
      (l : EditLogFile) (rest : Call EditLogFile)
      → Moves SameEpoch rest
      → Moves SameEpoch (latest_or l rest)
  unfolding latest_or
  latest_or-SameEpoch l rest h =
      search (same_epoch_rules, scan_log-SameEpoch, move_aside_empty-SameEpoch) depth 8

  latest_of-SameEpoch : (ls : List EditLogFile) → Moves SameEpoch (latest_of ls)
  unfolding latest_of
  latest_of-SameEpoch [] = search same_epoch_rules
  latest_of-SameEpoch (l ∷ ls) = latest_or-SameEpoch l (latest_of ls) (latest_of-SameEpoch ls)

  pub scan_storage-SameEpoch : Moves SameEpoch scan_storage_for_latest_edits
  unfolding scan_storage_for_latest_edits
  scan_storage-SameEpoch = search (same_epoch_rules, latest_of-SameEpoch)

  segment_state_of-SameEpoch :
      (txid : ℤ) (l : EditLogFile) → Moves SameEpoch (segment_state_of txid l)
  unfolding segment_state_of
  segment_state_of-SameEpoch txid l = search (same_epoch_rules, move_aside_empty-SameEpoch)

  pub get_segment_info-SameEpoch : (txid : ℤ) → Moves SameEpoch (get_segment_info txid)
  unfolding get_segment_info
  get_segment_info-SameEpoch txid =
      search (same_epoch_rules, scan_log-SameEpoch, segment_state_of-SameEpoch) depth 8

  pub purge-SameEpoch : (txid : ℤ) → Moves SameEpoch (purge_paxos_decision txid)
  unfolding purge_paxos_decision
  purge-SameEpoch txid = search same_epoch_rules

  pub check_not_overwriting-SameEpoch : (txid : ℤ) → Moves SameEpoch (check_not_overwriting txid)
  unfolding check_not_overwriting
  check_not_overwriting-SameEpoch txid = search (same_epoch_rules, scan_log-SameEpoch) depth 8

  pub update_writer_epoch-SameEpoch :
      (req : RequestInfo) → Moves SameEpoch (update_writer_epoch req)
  unfolding update_writer_epoch
  update_writer_epoch-SameEpoch req = search same_epoch_rules

  pub open_segment-SameEpoch : (txid version : ℤ) → Moves SameEpoch (open_segment txid version)
  unfolding open_segment
  open_segment-SameEpoch txid version = record {
    at = λ j. record { promise = refl; serial = refl };
  }

  pub begin_segment-SameEpoch : (txid : ℤ) → Moves SameEpoch (begin_segment txid)
  unfolding begin_segment ◌>>=◌
  begin_segment-SameEpoch txid = record { at = λ j. record { promise = refl; serial = refl } }

  write_records-SameEpoch : (records : Bytes) → Moves SameEpoch (write_records records)
  unfolding write_records
  write_records-SameEpoch records = record {
    at = λ j. record { promise = ground arith; serial = ground arith };
  }

  pub long_sum-SameEpoch : (z : ℤ) → Moves SameEpoch (long_sum z)
  unfolding long_sum
  long_sum-SameEpoch z = search same_epoch_rules

  advance-SameEpoch : (last : ℤ) → Moves SameEpoch (advance last)
  unfolding advance long_sum ◌>>=◌
  advance-SameEpoch last = record {
    at = λ j. record { promise = ground arith; serial = ground arith };
  }

  pub write_batch-SameEpoch :
      (segment first num : ℤ) (records : Bytes)
      → Moves SameEpoch (write_batch segment first num records)
  unfolding write_batch
  write_batch-SameEpoch segment first num records =
      search
        (
          same_epoch_rules, abort_cur_segment-SameEpoch, write_records-SameEpoch, advance-SameEpoch,
          long_sum-SameEpoch,
        )
        depth 12

  validated-SameEpoch : (l : EditLogFile) (end : ℤ) → Moves SameEpoch (validated l end)
  unfolding validated
  validated-SameEpoch l end = search (same_epoch_rules, scan_log-SameEpoch)

  renamed_to-SameEpoch : (start end : ℤ) → Moves SameEpoch (renamed_to start end)
  unfolding renamed_to
  renamed_to-SameEpoch start end = record { at = λ j. record { promise = refl; serial = refl } }

  pub finalize_file-SameEpoch :
      (start end : ℤ) (check : Bool) → Moves SameEpoch (finalize_file start end check)
  unfolding finalize_file
  finalize_file-SameEpoch start end check =
      search (same_epoch_rules, validated-SameEpoch, renamed_to-SameEpoch, purge-SameEpoch) depth 10

  pub get_persisted-SameEpoch : (txid : ℤ) → Moves SameEpoch (get_persisted_paxos_data txid)
  unfolding get_persisted_paxos_data
  get_persisted-SameEpoch txid = search same_epoch_rules

  pub complete_half_done-SameEpoch : (p : Option PaxosData) → Moves SameEpoch (complete_half_done p)
  unfolding complete_half_done
  complete_half_done-SameEpoch none = search same_epoch_rules
  complete_half_done-SameEpoch (some p) = search same_epoch_rules depth 8

  persisted-SameEpoch : (f : Bytes) (text : Option Bytes) → Moves SameEpoch (persisted f text)
  unfolding persisted
  persisted-SameEpoch f none = record { at = λ j. record { promise = refl; serial = refl } }
  persisted-SameEpoch f (some text) = record {
    at = λ j. record { promise = ground arith; serial = ground arith };
  }

  pub persist-SameEpoch : (txid : ℤ) (p : PaxosData) → Moves SameEpoch (persist_paxos_data txid p)
  unfolding persist_paxos_data
  persist-SameEpoch txid p = search (same_epoch_rules, persisted-SameEpoch)

  sync_log-SameEpoch :
      (req : RequestInfo) (seg : SegmentState) (url : Bytes)
      → Moves SameEpoch (sync_log req seg url)
  unfolding sync_log
  sync_log-SameEpoch req seg url = record {
    at = λ j. record { promise = ground arith; serial = ground arith };
  }

  raise_highest-SameEpoch : (seg : SegmentState) → Moves SameEpoch (raise_highest seg)
  unfolding raise_highest ◌>>=◌
  raise_highest-SameEpoch seg = record { at = λ j. record { promise = refl; serial = refl } }

  lower_highest-SameEpoch : (cur seg : SegmentState) → Moves SameEpoch (lower_highest cur seg)
  unfolding lower_highest ◌>>=◌
  lower_highest-SameEpoch cur seg = record { at = λ j. record { promise = refl; serial = refl } }

  pub synchronize-SameEpoch :
      (req : RequestInfo) (seg : SegmentState) (url : Bytes) (cur : Option SegmentState)
      → Moves SameEpoch (synchronize req seg url cur)
  unfolding synchronize
  synchronize-SameEpoch req seg url none =
      search (same_epoch_rules, raise_highest-SameEpoch, sync_log-SameEpoch)
  synchronize-SameEpoch req seg url (some cur) =
      search (same_epoch_rules, lower_highest-SameEpoch, sync_log-SameEpoch) depth 10

pub ruleset steady_rules = (
  same_epoch_rules, abort_cur_segment-SameEpoch, scan_storage-SameEpoch, get_segment_info-SameEpoch,
  purge-SameEpoch, check_not_overwriting-SameEpoch, update_writer_epoch-SameEpoch,
  open_segment-SameEpoch, begin_segment-SameEpoch, write_batch-SameEpoch, finalize_file-SameEpoch,
  long_sum-SameEpoch, get_persisted-SameEpoch, complete_half_done-SameEpoch, persist-SameEpoch,
  synchronize-SameEpoch,
)
