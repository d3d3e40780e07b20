-- ===== src/Journal/Scanning.antt =====
-- `scanStorageForLatestEdits`, `getSegmentInfo` and `newEpoch`.
pub mod Latest
use mathlib.Core.List.{reverse}
use jn_server_cc.Base.{
  ℕ, List, [], ◌∷◌, Option, none, some, if◌then◌else◌, ℤ, pos, leb_ℤ, eqb_ℤ, done, fail, error,
  pure, stop_if, ignore_code, ◌>>=◌, ◌>>◌,
}
use jn_server_cc.Host.{Host}
use jn_server_cc.Messages.{SegmentState, to_u64}
use jn_server_cc.Files.{dir_exists}
use jn_server_cc.EditLog.Transaction.{invalid_txid}
use jn_server_cc.EditLog.File.{EditLogFile, no_log, is_initialized, scan, move_aside_empty_file}
use jn_server_cc.Storage.{StorageInfo, check_consistent_namespace}
use jn_server_cc.Manager.{get_log_file, get_log_files}
use jn_server_cc.Journal.State.{Call, reading, get_promised}
use jn_server_cc.Journal.Epochs.{check_formatted, update_last_promised_epoch, abort_cur_segment}

module _ ⦃host : Host⦄ where
  -- `elf.scanLog()`, with the object that comes back.
  unfoldable pub scan_log : EditLogFile → Call EditLogFile
  scan_log l j =
      let (r, l') = scan l j.disk in elim r [ done _ ↦ (done l', j) | fail e ↦ (fail e, j) ]

  unfoldable pub move_aside_empty : EditLogFile → Call (Unit {0})
  move_aside_empty l j =
      let (r, _, d) = move_aside_empty_file l j.disk in (r, record j { disk = d })

  -- A round of the loop, before the rest of the files: a file with no transactions is moved aside.
  unfoldable pub latest_or : EditLogFile → Call EditLogFile → Call EditLogFile
  unfolding scan_log move_aside_empty
  latest_or l rest = do
    l' ← scan_log l
    if eqb_ℤ l'.last_txid invalid_txid then (do move_aside_empty l'; rest) else pure l'

  -- The loop from the last file down.
  unfoldable pub latest_of : List EditLogFile → Call EditLogFile
  unfolding latest_or
  latest_of [] = pure no_log
  latest_of (l ∷ ls) = latest_or l (latest_of ls)

  -- A file object that is not initialized stands for no file.
  unfoldable pub scan_storage_for_latest_edits : Call EditLogFile
  unfolding latest_of
  scan_storage_for_latest_edits = do
    there ← reading (λ j. dir_exists j.storage.current_dir j.disk)
    if there
        then (do
          files ← reading (λ j. get_log_files j.storage (pos 0) j.disk)
          latest_of (reverse files))
        else pure no_log

  -- The state of a segment, or `none`; the code of moving an empty file aside is ignored.
  unfoldable pub segment_state_of : ℤ → EditLogFile → Call (Option SegmentState)
  unfolding move_aside_empty
  segment_state_of txid l =
      if eqb_ℤ l.last_txid invalid_txid
      then (do _ ← ignore_code (move_aside_empty l); pure none)
      else pure (
          some (record {
            start_txid = to_u64 txid;
            end_txid = to_u64 l.last_txid;
            is_in_progress = l.in_progress;
          }))

  unfoldable pub get_segment_info : ℤ → Call (Option SegmentState)
  unfolding scan_log segment_state_of
  get_segment_info txid = do
    l ← reading (λ j. get_log_file j.storage txid j.disk)
    if is_initialized l
        then (do l' ← (if l.in_progress then scan_log l else pure l); segment_state_of txid l')
        else pure none

  -- The check of the proposed epoch and the new promise, in `newEpoch`.
  unfoldable pub promise_epoch : ℤ → Call (Unit {0})
  promise_epoch epoch = do
    lpe ← get_promised
    stop_if (leb_ℤ epoch lpe) error
    update_last_promised_epoch epoch

  -- `newEpoch`: the txid of the latest segment, if there is one.
  unfoldable pub new_epoch : StorageInfo → ℤ → Call (Option ℕ)
  new_epoch ns epoch = do
    check_formatted
    reading (λ j. check_consistent_namespace j.storage ns)
    promise_epoch epoch
    abort_cur_segment
    latest ← scan_storage_for_latest_edits
    pure (if is_initialized latest then some (to_u64 latest.first_txid) else none)
