-- ===== src/Tests/Requests.antt =====
-- Requests to a journal that is being written.
use jn_server_cc.Base.{
  negsuc, none, ◌≡◌, ◌⊎◌, refl, inl, inr, List, [], ◌∷◌, pos, ◌>>=◌, arith, done, fail, error,
}
use jn_server_cc.Host.Memory.{memory}
use jn_server_cc.LongFile.Persistent
use jn_server_cc.LongFile.BestEffort
use jn_server_cc.Stream
use jn_server_cc.Stream.{open_stream, is_open, put, flush, seek_start}
use jn_server_cc.LongFile.Persistent.{write_number}
use jn_server_cc.Files.{get_in_progress_edits_file, file_exists, dir_exists}
use jn_server_cc.Manager
use jn_server_cc.Manager.{
  get_log_file, logs_at, only_log, get_log_files, match_edit_logs, sort_logs, logs_from,
  logs_of_names,
}
use jn_server_cc.Text.{print_long, print_padded, is_long}
use jn_server_cc.Base.{◌+ℤ◌, ◌-ℤ◌}
use jn_server_cc.EditLog.Output
use jn_server_cc.EditLog.Transaction.{write_int, transaction}
use jn_server_cc.Storage.{check_consistent_namespace, is_formatted}
use jn_server_cc.Journal.State.{
  Journal, reading, set_promised, get_promised, get_writer, get_committed, set_committed,
}
use jn_server_cc.Journal.Epochs.{
  update_last_promised_epoch, abort_cur_segment, check_formatted, check_epoch, check_serial,
  check_committed, check_request, check_write_request,
}
use jn_server_cc.Journal.Epochs.Promise.{promised_epoch, IsLoaded, Later}
use jn_server_cc.Journal.Segments.{
  start_log_segment, check_not_overwriting, update_writer_epoch, purge_paxos_decision, open_segment,
  begin_segment, write_batch, journal,
}
use jn_server_cc.Journal.Requests.{Request, new_epochs, journals, prepares, serve, run}
use jn_server_cc.Journal.Requests.Asked.{Asked, run-Asked}
use jn_server_cc.Journal.Requests.Fencing.{run-Later}
use jn_server_cc.Journal.Requests.Replay.{refusal, serve_old, serve_replayed}
use jn_server_cc.Journal.Scanning.{
  new_epoch, promise_epoch, scan_storage_for_latest_edits, latest_of,
}
use jn_server_cc.Journal.Requests.Once.{new_epoch_once}
use jn_server_cc.Tests.Setup.{fake_ns, make_ri, create_transaction, writing}

abbrev batch : Request
batch = journals (make_ri 3 3) (pos 1) (pos 2) (pos 1) (create_transaction 2)

-- The requests of a new writer.
abbrev takeover : List Request
takeover = new_epochs fake_ns (pos 4) ∷ prepares (make_ri 4 1) (pos 1) ∷ []

batch_done : (serve batch writing).0 ≡ done tt
unfolding serve is_long ◌+ℤ◌ ◌-ℤ◌ journal check_write_request check_request check_formatted
    check_epoch check_serial check_committed is_formatted get_promised Persistent.get get_writer
    get_committed BestEffort.get set_committed BestEffort.set write_batch ◌>>=◌ is_open put flush
    seek_start print_padded Output.flush Output.write_raw transaction
batch_done = refl

serve_replayed_example : serve batch (run takeover (serve batch writing).1) ≡ (
  fail (refusal (make_ri 3 3) (run takeover (serve batch writing).1)),
  run takeover (serve batch writing).1,
)
serve_replayed_example =
    serve_replayed batch batch (make_ri 3 3) (make_ri 3 3) takeover writing refl batch_done refl
      (inr (refl, omega arith))

run-Later_example : IsLoaded (run takeover writing) × Later writing (run takeover writing)
run-Later_example = run-Later takeover writing refl

serve_old_example :
    serve (prepares (make_ri 2 7) (pos 1)) writing ≡ (fail (refusal (make_ri 2 7) writing), writing)
serve_old_example =
    serve_old (prepares (make_ri 2 7) (pos 1)) (make_ri 2 7) writing refl refl (inl (omega arith))

-- A journal with no log at all.
abbrev pub empty : Journal
empty = record writing { cur_segment = none; disk = [] }

pub epoch_started : (new_epoch fake_ns (pos 4) empty).0 ≡ done none
unfolding new_epoch ◌>>=◌ check_formatted is_formatted reading check_consistent_namespace
    promise_epoch get_promised Persistent.get update_last_promised_epoch set_promised Persistent.set
    is_open open_stream abort_cur_segment scan_storage_for_latest_edits dir_exists get_log_files
    match_edit_logs sort_logs logs_from logs_of_names latest_of write_number put Stream.close
    print_long
epoch_started = refl

new_epoch_once_example :
    serve (new_epochs fake_ns (pos 4)) (run takeover (new_epoch fake_ns (pos 4) empty).1)
    ≡ (fail error, run takeover (new_epoch fake_ns (pos 4) empty).1)
new_epoch_once_example =
    new_epoch_once fake_ns fake_ns (pos 4) (pos 4) none takeover empty epoch_started (omega arith)

segment_started : (start_log_segment (make_ri 3 3) (pos 5) (negsuc 56) empty).0 ≡ done tt
unfolding start_log_segment check_formatted is_formatted check_request check_epoch check_serial
    check_committed get_promised Persistent.get get_committed BestEffort.get set_committed
    BestEffort.set ◌>>=◌ is_open put flush seek_start print_padded abort_cur_segment reading
    get_log_file check_not_overwriting match_edit_logs logs_of_names update_writer_epoch get_writer
    purge_paxos_decision file_exists open_segment Manager.start_log_segment begin_segment
    Output.create Output.new_stream open_stream write_int get_in_progress_edits_file
segment_started = refl

run-Asked_example :
    (promised_epoch (run takeover writing) ≡ promised_epoch writing)
    ⊎ Asked (promised_epoch (run takeover writing)) takeover
run-Asked_example = run-Asked takeover writing refl
