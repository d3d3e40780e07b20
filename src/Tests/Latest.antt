-- ===== src/Tests/Latest.antt =====
-- A writer takes a journal over in which a segment was started and not written.
use jn_server_cc.EditLog.Transaction.{transaction}
use jn_server_cc.Files.{replace_file}
use jn_server_cc.EditLog.File.{move_aside_empty_file}
use jn_server_cc.EditLog.Transaction.{write_int}
use jn_server_cc.EditLog.Input.{scan_log}
use jn_server_cc.EditLog.File.{scan}
use jn_server_cc.EditLog.File.{log_lt}
use jn_server_cc.Text.{strtol}
use jn_server_cc.EditLog.File.{new_log}
use jn_server_cc.Text.{print_long}
use jn_server_cc.Stream
use jn_server_cc.Files.{dir_exists}
use jn_server_cc.Journal.Epochs.{abort_cur_segment}
use jn_server_cc.Stream.{open_stream}
use jn_server_cc.Stream.{is_open}
use jn_server_cc.Journal.State.{set_promised}
use jn_server_cc.Journal.Epochs.{update_last_promised_epoch}
use jn_server_cc.LongFile.Persistent
use jn_server_cc.Journal.State.{get_promised}
use jn_server_cc.Storage.{check_consistent_namespace}
use jn_server_cc.Journal.State.{reading}
use jn_server_cc.Storage.{is_formatted}
use jn_server_cc.Journal.Epochs.{check_formatted}
use jn_server_cc.Base.{◌≡◌, refl, List, none, [], ◌∷◌, some, codes, pos, negsuc, done, ◌>>=◌}
use mathlib.Core.List.{reverse}
use jn_server_cc.Host.Memory.{memory}
use jn_server_cc.Messages.{to_u64}
use jn_server_cc.EditLog.File.{EditLogFile}
use jn_server_cc.EditLog.Whole.{file_of}
use jn_server_cc.Manager.{get_log_files}
use jn_server_cc.Manager.Sorting.{InOrder}
use jn_server_cc.Journal.State.{Journal}
use jn_server_cc.Journal.Scanning
use jn_server_cc.Journal.Scanning.{new_epoch}
use jn_server_cc.Journal.Scanning.Latest.{LatestOf, scanned_journal, new_epoch_latest}
use jn_server_cc.Tests.Setup.{crc, fake_ns, writing}

abbrev left : Journal
left = record writing {
  cur_segment = none;
  disk =
      (
        codes "/jn/current/edits_0000000000000000001-0000000000000000001",
        file_of crc (negsuc 56) ((pos 1, codes "Data") ∷ []),
      )
      ∷ (codes "/jn/current/edits_inprogress_0000000000000000002", file_of crc (negsuc 56) [])
      ∷ [];
}

answered : (new_epoch fake_ns (pos 4) left).0 ≡ done (some 1)
unfolding new_epoch ◌>>=◌ check_formatted is_formatted reading check_consistent_namespace
    Scanning.promise_epoch get_promised Persistent.get update_last_promised_epoch set_promised
    Persistent.set is_open open_stream abort_cur_segment Scanning.scan_storage_for_latest_edits
    dir_exists get_log_files Stream.close Stream.put print_long new_log strtol log_lt scan scan_log
    write_int move_aside_empty_file replace_file transaction
answered = refl

new_epoch_latest_example :
    (logs : List EditLogFile) × (l : EditLogFile) × (get_log_files
        (scanned_journal (pos 4) left).storage
        (pos 0)
        (scanned_journal (pos 4) left).disk
      ≡ done logs)
    × InOrder logs
    × LatestOf (reverse logs) (scanned_journal (pos 4) left) l
    × (1 ≡ to_u64 l.first_txid)
new_epoch_latest_example = new_epoch_latest fake_ns (pos 4) left 1 answered
