-- ===== src/Tests/Writing.antt =====
-- A segment that is started and written to.
use jn_server_cc.Stream.{open_stream}
use jn_server_cc.EditLog.Output.{new_stream}
use jn_server_cc.EditLog.Output.{create}
use jn_server_cc.Journal.Segments.{begin_segment}
use jn_server_cc.Journal.Segments.{open_segment}
use jn_server_cc.Journal.Segments.{update_writer_epoch}
use jn_server_cc.Manager.{logs_of_names}
use jn_server_cc.Manager.{match_edit_logs}
use jn_server_cc.Journal.Segments.{check_not_overwriting}
use jn_server_cc.Journal.Epochs.{abort_cur_segment}
use jn_server_cc.Journal.Epochs.{check_formatted}
use jn_server_cc.Base.{
  ℕ, List, zero, suc, ◌+◌, ◌≡◌, refl, ap, true, false, [], ◌∷◌, ◌++◌, some, Bytes, codes, length,
  take, drop, pos, negsuc, ◌+ℤ◌, ◌-ℤ◌, arith, done, ◌<◌, ◌^◌, ◌>>=◌,
}
use mathlib.Core.List.{append-nil}
use jn_server_cc.Host.Memory.{memory, Files, find, overwrite}
use jn_server_cc.Host.Appending.{FilesAppend}
use jn_server_cc.Stream
use jn_server_cc.Stream.{is_open, flush, seek_start}
use jn_server_cc.Text.{print_padded, strtol}
use jn_server_cc.LongFile.Persistent
use jn_server_cc.LongFile.BestEffort
use jn_server_cc.EditLog.Transaction.{write_int, transaction}
use jn_server_cc.EditLog.Whole.{Transactions, file_of}
use jn_server_cc.EditLog.Output
use jn_server_cc.Journal.State.{
  Journal, reading, get_committed, set_committed, get_writer, get_promised,
}
use jn_server_cc.Journal.Epochs.{
  check_epoch, check_serial, check_committed, check_request, check_write_request,
}
use jn_server_cc.EditLog.File.{EditLogFile, new_log, is_initialized}
use jn_server_cc.Journal.Scanning.{scan_log}
use jn_server_cc.EditLog.File
use jn_server_cc.EditLog.Input
use jn_server_cc.Files.{
  file_exists, file_rename, get_finalized_edits_file, get_in_progress_edits_file,
}
use jn_server_cc.Manager
use jn_server_cc.Manager.{get_log_file}
use jn_server_cc.Journal.Segments.Finalizing.{MayFinalize, finalize_file_success}
use jn_server_cc.Journal.Segments.{
  finalize_file, validated, renamed_to, purge_paxos_decision, write_batch, journal,
  start_log_segment,
}
use jn_server_cc.Journal.Segments.Accepting.{journal_accepts}
use jn_server_cc.Journal.Segments.Content.{Batch, write_batches}
use jn_server_cc.Tests.Setup.{crc, make_ri, create_transaction, writing}
use jn_server_cc.Tests.Requests.{empty}
use jn_server_cc.Storage.{is_formatted, get_paxos_file}
use jn_server_cc.EditLog.Output.{OutputStream}
use jn_server_cc.Text.{is_long}
use jn_server_cc.Base.{◌+ℤ◌, ◌-ℤ◌}
use jn_server_cc.Tests.Files.{find-put}
use jn_server_cc.Tests.Leaving.{decisions}

take-length : (t : Bytes) → take (length t) t ≡ t
take-length [] = refl
take-length (c ∷ t) = ap (λ r. c ∷ r) (take-length t)

drop_nil : (n : ℕ) → drop {A = ℕ} n [] ≡ []
drop_nil zero = refl
drop_nil (suc n) = refl

drop-suc : (k n c : ℕ) (t : Bytes) → drop (suc k + n) (c ∷ t) ≡ drop (k + n) t
drop-suc k n c t = let e : suc k + n ≡ suc (k + n) = omega arith in ap (λ m. drop m (c ∷ t)) e

drop_past : (t : Bytes) (n : ℕ) → drop (length t + n) t ≡ []
drop_past [] n = drop_nil (0 + n)
drop_past (c ∷ t) n = rw (drop-suc (length t) n c t) (drop_past t n)

overwrite_end : (t s : Bytes) → overwrite (length t) s t ≡ t ++ s
overwrite_end t s = rw (take-length t, drop_past t (length s), append-nil s) refl

pub opened_empty :
    (p : Bytes) (d d' : Files) (o : Bytes)
    → memory.open_out p d ≡ (some o, d')
    → (o ≡ p) × (find p d' ≡ some [])
opened_empty p d d' o h = ground (arith, find-put p [] d)

pub added :
    (o p t s : Bytes) (d d' : Files)
    → o ≡ p
    → find p d ≡ some t
    → memory.write_at o (length t) s d ≡ (true, d')
    → (o ≡ p) × (find p d' ≡ some (t ++ s))
added o p t s d d' e h w =
    ground (arith, overwrite_end t s, find-put p (overwrite (length t) s t) d)

-- A handle is the path that it is open on.
abbrev pub appending : FilesAppend
appending = record {
  IsOpen = λ o p d. o ≡ p;
  opens = opened_empty;
  appends = added;
  closes = λ o p t d e h. h;
  renames = λ a b t d d' h e. (decisions.renamed a b t d d' h e).0;
}

abbrev pub segment_path : Bytes
segment_path = codes "/jn/current/edits_inprogress_0000000000000000001"

abbrev pub two : Transactions
two = (pos 1, codes "Data") ∷ (pos 2, codes "Data") ∷ []

abbrev pub batches : List Batch
batches = (pos 1, pos 1, create_transaction 1) ∷ (pos 2, pos 1, create_transaction 2) ∷ []

pub first_started : (start_log_segment (make_ri 3 3) (pos 1) (negsuc 56) empty).0 ≡ done tt
unfolding start_log_segment check_formatted is_formatted check_request check_epoch check_serial
    check_committed get_promised Persistent.get get_committed BestEffort.get set_committed
    BestEffort.set ◌>>=◌ is_open Stream.put flush seek_start print_padded abort_cur_segment reading
    get_log_file check_not_overwriting match_edit_logs logs_of_names update_writer_epoch get_writer
    purge_paxos_decision file_exists open_segment Manager.start_log_segment begin_segment create
    new_stream open_stream write_int get_in_progress_edits_file
first_started = refl

abbrev begun : Journal
begun = (start_log_segment (make_ri 3 3) (pos 1) (negsuc 56) empty).1

pub begun_opened : begun.committed_txn_id.opened ≡ true
unfolding start_log_segment check_formatted is_formatted check_request check_epoch check_serial
    check_committed get_promised Persistent.get get_committed BestEffort.get set_committed
    BestEffort.set ◌>>=◌ is_open Stream.put flush seek_start print_padded abort_cur_segment reading
    get_log_file check_not_overwriting match_edit_logs logs_of_names update_writer_epoch get_writer
    purge_paxos_decision file_exists open_segment Manager.start_log_segment begin_segment create
    new_stream open_stream write_int get_in_progress_edits_file
begun_opened = refl

pub batches_written : (write_batches (pos 1) batches begun).0 ≡ done tt
unfolding is_long start_log_segment check_formatted is_formatted check_request check_epoch
    check_serial check_committed get_promised Persistent.get get_committed BestEffort.get
    set_committed BestEffort.set ◌>>=◌ is_open Stream.put flush seek_start print_padded
    abort_cur_segment reading get_log_file check_not_overwriting match_edit_logs logs_of_names
    update_writer_epoch get_writer purge_paxos_decision file_exists open_segment
    Manager.start_log_segment begin_segment create new_stream open_stream write_int
    get_in_progress_edits_file write_batch Output.flush Output.write_raw ◌+ℤ◌ ◌-ℤ◌ transaction
batches_written = refl

pub two_size : length (file_of crc (negsuc 56) two) < 2 ^ 32
unfolding transaction
two_size = omega arith

abbrev open_output : OutputStream
open_output = record {
  filename = segment_path;
  stream = record { file = some segment_path; position = 0; buffer = []; failed = false };
}

formatted : is_formatted writing.storage ≡ true
unfolding is_formatted
formatted = refl

flush_written :
    (Output.flush
      (Output.write_raw (create_transaction 2) open_output)
      (check_write_request (make_ri 3 3) writing).1.disk).0
    ≡ true
unfolding check_write_request check_request check_epoch check_serial check_committed get_promised
    Persistent.get get_writer get_committed BestEffort.get set_committed BestEffort.set ◌>>=◌
    is_open Stream.put flush seek_start print_padded Output.flush Output.write_raw transaction
flush_written = refl

journal_accepts_example :
    (journal (make_ri 3 3) (pos 1) (pos 2) (pos 1) (create_transaction 2) writing).0 ≡ done tt
unfolding is_long ◌+ℤ◌ ◌-ℤ◌
journal_accepts_example =
    journal_accepts (make_ri 3 3) (pos 1) (pos 2) (pos 1) (create_transaction 2) open_output writing
      formatted refl refl (omega arith) (refl, omega arith) refl refl refl refl refl refl refl
      flush_written

-- The segment 1 with two transactions in its file.
abbrev written : Journal
written = record writing { disk = (segment_path, file_of crc (negsuc 56) two) ∷ [] }

finalized : (finalize_file (pos 1) (pos 2) true written).0 ≡ done tt
unfolding finalize_file ◌>>=◌ reading get_log_file new_log strtol transaction validated scan_log
    File.scan Input.scan_log renamed_to Manager.finalize_log_segment file_exists
    get_finalized_edits_file print_padded file_rename get_in_progress_edits_file
    purge_paxos_decision get_paxos_file
finalized = refl

finalize_file_success_example :
    (l : EditLogFile) × (get_log_file written.storage (pos 1) written.disk ≡ done l)
    × (is_initialized l ≡ true)
    × MayFinalize (pos 2) true l written
finalize_file_success_example = finalize_file_success (pos 1) (pos 2) true written finalized
