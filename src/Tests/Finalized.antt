-- ===== src/Tests/Finalized.antt =====
-- A segment that is started, written and finalized.
use mathlib.Core.List.{append_assoc}
use jn_server_cc.Base.{
  ◌≡◌, ◌≢◌, ap, sym, done-injective, false, ◌∙◌, refl, true, [], ◌∷◌, ◌++◌, some, codes, ℤ, pos,
  negsuc, arith, done, ◌>>=◌,
}
use jn_server_cc.Host.Memory.{memory}
use jn_server_cc.EditLog.Transaction.{invalid_txid}
use jn_server_cc.EditLog.Input.{scan_text}
use jn_server_cc.EditLog.File.{EditLogFile}
use jn_server_cc.EditLog.Whole.{last_of, file_of}
use jn_server_cc.Files.{get_finalized_edits_file}
use jn_server_cc.Storage.{JnStorage, get_paxos_file, get_paxos_dir}
use jn_server_cc.Manager.{get_log_file}
use jn_server_cc.Text.{print_long}
use jn_server_cc.Journal.State.{Journal}
use jn_server_cc.Journal.Epochs.{abort_cur_segment}
use jn_server_cc.Journal.Segments.{finalize_segment}
use jn_server_cc.Journal.Segments.Renaming.{finalized_file, SparedByPurge}
use jn_server_cc.Journal.Segments.Finalized.{
  written_segment, FindsInProgress, log_segment_finalized,
}
use jn_server_cc.Tests.Leaving.{find-delete_ne, append_ne, apart_names}
use jn_server_cc.Tests.Requests.{empty}
use jn_server_cc.Tests.Setup.{crc, make_ri}
use jn_server_cc.Tests.Files.{real}
use jn_server_cc.Tests.Writing.{
  appending, two, batches, two_size, first_started, begun_opened, batches_written,
}
use jn_server_cc.Stream.{open_stream}
use jn_server_cc.EditLog.Output.{new_stream}
use jn_server_cc.EditLog.Output.{create}
use jn_server_cc.Journal.Segments.{begin_segment}
use jn_server_cc.Journal.Segments.{open_segment}
use jn_server_cc.Journal.Segments.{update_writer_epoch}
use jn_server_cc.Manager.{logs_of_names}
use jn_server_cc.Manager.{match_edit_logs}
use jn_server_cc.Journal.Segments.{check_not_overwriting}
use jn_server_cc.Journal.Epochs.{abort_cur_segment}
use jn_server_cc.Journal.Epochs.{check_formatted}
use jn_server_cc.Base.{
  ◌≡◌, refl, ap, true, false, [], ◌∷◌, ◌++◌, some, codes, pos, negsuc, ◌+ℤ◌, ◌-ℤ◌, arith, done,
  ◌>>=◌,
}
use jn_server_cc.Host.Memory.{memory}
use jn_server_cc.Stream
use jn_server_cc.Stream.{is_open, flush, seek_start}
use jn_server_cc.Text.{print_padded, strtol}
use jn_server_cc.LongFile.Persistent
use jn_server_cc.LongFile.BestEffort
use jn_server_cc.EditLog.Transaction.{invalid_txid, write_int, transaction}
use jn_server_cc.EditLog.Whole.{last_of, file_of}
use jn_server_cc.EditLog.Output
use jn_server_cc.Journal.State.{
  Journal, reading, get_committed, set_committed, get_writer, get_promised,
}
use jn_server_cc.Text.{is_long}
use jn_server_cc.Journal.Segments.{long_sum}
use jn_server_cc.Journal.Epochs.{check_epoch, check_serial, check_committed, check_request}
use jn_server_cc.EditLog.File.{EditLogFile, new_log}
use jn_server_cc.Files.{
  file_exists, file_rename, get_finalized_edits_file, get_in_progress_edits_file,
}
use jn_server_cc.Manager
use jn_server_cc.Manager.{get_log_file}
use jn_server_cc.Journal.Segments.{
  finalize_file, renamed_to, purge_paxos_decision, write_batch, start_log_segment,
}
use jn_server_cc.Tests.Setup.{crc, make_ri, writing}
use jn_server_cc.Tests.Requests.{empty}
use jn_server_cc.Storage.{is_formatted, get_paxos_file}
use jn_server_cc.EditLog.Output.{OutputStream}
use jn_server_cc.Tests.Files.{real}
use jn_server_cc.Tests.Writing.{segment_path}

abbrev written : Journal
written = written_segment (make_ri 3 3) (pos 1) (negsuc 56) batches empty

-- The journal that comes out of it.
abbrev full : Journal
full = record writing {
  cur_segment = some (record {
    filename = segment_path;
    stream = record { file = some segment_path; position = 50; buffer = []; failed = false };
  });
  next_txid = pos 3;
  highest_written_txid = pos 2;
  current_epoch_ipc_serial = pos 3;
  committed_txn_id = record writing.committed_txn_id {
    ostrm = record {
      file = some (codes "/jn/current/committed-txid");
      position = 0;
      buffer = print_padded (pos 0);
      failed = true;
    };
  };
  disk = (segment_path, file_of crc (negsuc 56) two) ∷ [];
}

written_full : written ≡ full
unfolding is_long start_log_segment check_formatted is_formatted check_request check_epoch
    check_serial check_committed get_promised Persistent.get get_committed BestEffort.get
    set_committed BestEffort.set ◌>>=◌ is_open Stream.put flush seek_start print_padded
    abort_cur_segment reading get_log_file check_not_overwriting match_edit_logs logs_of_names
    update_writer_epoch get_writer purge_paxos_decision file_exists open_segment
    Manager.start_log_segment begin_segment create new_stream open_stream write_int
    get_in_progress_edits_file write_batch Output.flush Output.write_raw ◌+ℤ◌ ◌-ℤ◌ transaction
written_full = refl

-- The file of a decision lies in another directory than the segments.
decision_apart :
    (s : JnStorage) (txid start end : ℤ)
    → get_finalized_edits_file s.current_dir start end ≢ get_paxos_file s txid
unfolding get_paxos_file get_paxos_dir get_finalized_edits_file
decision_apart s txid start end e =
    append_ne s.current_dir (codes "/paxos" ++ (codes "/" ++ print_long txid)) _ (apart_names _ _)
      (sym (append_assoc s.current_dir (codes "/paxos") _) ∙ sym e)

spared : SparedByPurge (finalized_file (pos 1) (pos 2) written) written.storage
spared txid d = find-delete_ne _ _ d (decision_apart written.storage txid (pos 1) (pos 2))

abbrev logged : EditLogFile
logged = record {
  full_file_name = segment_path;
  first_txid = pos 1;
  last_txid = invalid_txid;
  in_progress = true;
  corrupt_header = false;
}

log_found : get_log_file full.storage (pos 1) (abort_cur_segment full).1.disk ≡ done logged
unfolding get_log_file abort_cur_segment ◌>>=◌ Output.abort Stream.close new_log strtol print_padded
log_found = refl

found : FindsInProgress (pos 1) written
found =
    rw written_full
      (λ l e. ap (λ (x : EditLogFile). x.in_progress) (done-injective (sym e ∙ log_found)))

finalized : (finalize_segment (pos 1) (pos 2) full).0 ≡ done tt
unfolding finalize_segment finalize_file ◌>>=◌ reading get_log_file new_log strtol transaction
    renamed_to Manager.finalize_log_segment file_exists get_finalized_edits_file print_padded
    file_rename get_in_progress_edits_file purge_paxos_decision get_paxos_file abort_cur_segment
    ◌+ℤ◌ is_long long_sum Output.abort Stream.close
finalized = refl

finalized_written : (finalize_segment (pos 1) (pos 2) written).0 ≡ done tt
finalized_written = rw written_full finalized

log_segment_finalized_example :
    (memory.read_file
        (finalized_file (pos 1) (pos 2) written)
        (finalize_segment (pos 1) (pos 2) written).1.disk
      ≡ some (file_of crc (negsuc 56) two))
    × (scan_text (file_of crc (negsuc 56) two) ≡ done (last_of invalid_txid two))
log_segment_finalized_example =
    log_segment_finalized appending crc (make_ri 3 3) (pos 1) (pos 2) (negsuc 56) two batches empty
      two_size (λ b. omega arith) (omega arith, real 1, (omega arith, real 2, tt)) refl
      first_started begun_opened batches_written found spared finalized_written
