-- ===== src/Journal/Segments.antt =====
-- `startLogSegment`, `journal`, `finalizeLogSegment` and `purgePaxosDecision`.
pub mod Writing
pub mod Starting
pub mod Accepting
pub mod Finalizing
pub mod Content
pub mod Header
pub mod Placed
pub mod Renaming
pub mod Finalized
use jn_server_cc.Base.{
  ℕ, Bool, true, false, not, Option, none, some, Bytes, if◌then◌else◌, ℤ, pos, eqb_ℤ, ◌+ℤ◌, ◌-ℤ◌,
  Outcome, done, fail, error, abort, undefined, pure, stop, stop_if, gets, modify, when, ◌>>=◌,
  ◌>>◌,
}
use jn_server_cc.Host.{Host}
use jn_server_cc.Text.{is_long}
use jn_server_cc.Files.{file_exists, file_delete}
use jn_server_cc.EditLog.Output
use jn_server_cc.EditLog.Output.{OutputStream}
use jn_server_cc.EditLog.Transaction.{invalid_txid}
use jn_server_cc.EditLog.File.{EditLogFile, is_initialized}
use jn_server_cc.Storage.{get_paxos_file}
use jn_server_cc.Manager
use jn_server_cc.Manager.{get_log_file}
use jn_server_cc.Journal.State.{
  Journal, Call, RequestInfo, reading, changing, get_writer, set_writer, get_committed,
}
use jn_server_cc.Journal.Epochs.{
  check_formatted, check_request, check_write_request, abort_cur_segment,
}
use jn_server_cc.Journal.Scanning.{scan_log}

module _ ⦃host : Host⦄ where
  unfoldable pub purge_paxos_decision : ℤ → Call (Unit {0})
  purge_paxos_decision txid = do
    there ← reading (λ j. file_exists (get_paxos_file j.storage txid) j.disk)
    when there (changing (λ j. file_delete (get_paxos_file j.storage txid) j.disk))

  -- The check that no transactions are overwritten.
  unfoldable pub check_not_overwriting : ℤ → Call (Unit {0})
  check_not_overwriting txid = do
    existing ← reading (λ j. get_log_file j.storage txid j.disk)
    when (is_initialized existing) (do
      stop_if (not existing.in_progress) abort
      scanned ← scan_log existing
      stop_if (not (eqb_ℤ scanned.last_txid scanned.first_txid)) abort)

  unfoldable pub update_writer_epoch : RequestInfo → Call (Unit {0})
  update_writer_epoch req = do
    epoch ← get_writer
    when (not (eqb_ℤ epoch req.epoch)) (set_writer req.epoch)

  -- `fjm.startLogSegment(txid, layoutVersion, curSegment)`
  unfoldable pub open_segment : ℤ → ℤ → Call (Unit {0})
  open_segment txid layout_version j =
      let (r, m, o, d) = Manager.start_log_segment j.storage txid layout_version j.disk in
      (r, record j { cur_segment = some o; fjm = m; disk = d })

  unfoldable pub begin_segment : ℤ → Call (Unit {0})
  begin_segment txid = modify (λ j. record j { cur_segment_txid = txid; next_txid = txid })

  -- `startLogSegment`
  unfoldable pub start_log_segment : RequestInfo → ℤ → ℤ → Call (Unit {0})
  start_log_segment req txid layout_version = do
    check_formatted
    check_request req
    abort_cur_segment
    check_not_overwriting txid
    update_writer_epoch req
    purge_paxos_decision txid
    open_segment txid layout_version
    begin_segment txid

  -- `writeRaw` and `flush` on the segment; through a null pointer they are undefined. The process
  -- ends where the flush fails.
  unfoldable pub written_to : Option OutputStream → Bytes → Call (Unit {0})
  written_to none records j = (fail undefined, j)
  written_to (some o) records j =
      let (flushed, o', d) = Output.flush (Output.write_raw records o) j.disk in
      (if flushed then done tt else fail abort, record j { cur_segment = some o'; disk = d })

  unfoldable pub write_records : Bytes → Call (Unit {0})
  unfolding written_to
  write_records records j = written_to j.cur_segment records j

  -- A sum that leaves the range of a long is undefined.
  unfoldable pub long_sum : ℤ → Call (Unit {0})
  long_sum z = stop_if (not (is_long z)) undefined

  abbrev pub advanced_to : ℤ → Journal → Journal
  advanced_to last j = record j { highest_written_txid = last; next_txid = last +ℤ pos 1 }

  unfoldable pub advance : ℤ → Call (Unit {0})
  unfolding long_sum
  advance last = do long_sum (last +ℤ pos 1); modify (advanced_to last)

  -- The part of `journal` behind the checks; a missing segment is only logged.
  unfoldable pub write_batch : ℤ → ℤ → ℤ → Bytes → Call (Unit {0})
  unfolding long_sum write_records advance abort_cur_segment
  write_batch segment_txid first num records = do
    cur ← gets (λ j. j.cur_segment_txid)
    when (not (eqb_ℤ cur segment_txid)) (do abort_cur_segment; stop error)
    next ← gets (λ j. j.next_txid)
    stop_if (not (eqb_ℤ next first)) error
    long_sum (first +ℤ num)
    long_sum (first +ℤ num -ℤ pos 1)
    _ ← get_committed
    write_records records
    advance (first +ℤ num -ℤ pos 1)

  -- `journal`
  unfoldable pub journal : RequestInfo → ℤ → ℤ → ℤ → Bytes → Call (Unit {0})
  journal req segment_txid first num records = do
    check_formatted
    check_write_request req
    write_batch segment_txid first num records

  unfoldable pub validated : EditLogFile → ℤ → Call (Unit {0})
  validated l end = do l' ← scan_log l; stop_if (not (eqb_ℤ l'.last_txid end)) error

  unfoldable pub renamed_to : ℤ → ℤ → Call (Unit {0})
  renamed_to start end j =
      let (r, m, d) = Manager.finalize_log_segment j.storage start end j.fjm j.disk in
      (r, record j { fjm = m; disk = d })

  -- The part of `finalizeLogSegment` behind the check of the current segment.
  unfoldable pub finalize_file : ℤ → ℤ → Bool → Call (Unit {0})
  finalize_file start end needs_validation = do
    l ← reading (λ j. get_log_file j.storage start j.disk)
    stop_if (not (is_initialized l)) error
    if l.in_progress
        then (do when needs_validation (validated l end); renamed_to start end)
        else stop_if (not (eqb_ℤ end l.last_txid)) abort
    purge_paxos_decision l.first_txid

  -- The part of `finalizeLogSegment` behind the checks of the request.
  unfoldable pub finalize_segment : ℤ → ℤ → Call (Unit {0})
  finalize_segment start end = do
    cur ← gets (λ j. j.cur_segment_txid)
    if eqb_ℤ start cur
        then (do
          abort_cur_segment
          next ← gets (λ j. j.next_txid)
          long_sum (end +ℤ pos 1)
          stop_if (not (eqb_ℤ next (end +ℤ pos 1))) error
          finalize_file start end false)
        else finalize_file start end true

  -- `finalizeLogSegment`
  unfoldable pub finalize_log_segment : RequestInfo → ℤ → ℤ → Call (Unit {0})
  unfolding finalize_segment
  finalize_log_segment req start end = do
    check_formatted
    check_request req
    finalize_segment start end
