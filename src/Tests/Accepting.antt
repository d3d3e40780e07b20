-- ===== src/Tests/Accepting.antt =====
-- A recovery that is accepted: the segment is downloaded, the decision read back, and answered to
-- the next writer.
use jn_server_cc.Tests.Leaving.{decisions, left_alone}
use jn_server_cc.Journal.Scanning.{segment_state_of}
use jn_server_cc.EditLog.Input
use jn_server_cc.EditLog.File.{scan, new_log}
use jn_server_cc.Text.{strtol}
use jn_server_cc.Journal.Scanning.{scan_log}
use jn_server_cc.Journal.State.{get_writer}
use jn_server_cc.Journal.Recovery.{answer}
use jn_server_cc.Journal.Recovery.{complete_half_done}
use jn_server_cc.Journal.Epochs.{update_last_promised_epoch}
use jn_server_cc.Journal.State.{set_promised}
use jn_server_cc.Files.{replace_file}
use jn_server_cc.Journal.State.{changing}
use jn_server_cc.EditLog.Transaction.{transaction}
use jn_server_cc.Files.{file_rename}
use jn_server_cc.Journal.Recovery.{prepare_recovery, persisted}
use jn_server_cc.Journal.Recovery.{persist_paxos_data}
use jn_server_cc.Journal.Recovery.{raise_highest}
use jn_server_cc.Journal.Recovery.{synchronize}
use jn_server_cc.Manager.{get_log_file}
use jn_server_cc.Journal.Scanning.{get_segment_info}
use jn_server_cc.Text.{print_padded}
use jn_server_cc.Stream.{seek_start}
use jn_server_cc.Stream
use jn_server_cc.EditLog.Output
use jn_server_cc.Files.{file_exists}
use jn_server_cc.Journal.State.{reading}
use jn_server_cc.Journal.Recovery.{get_persisted_paxos_data}
use jn_server_cc.Journal.Epochs.{abort_cur_segment}
use jn_server_cc.Journal.State.{set_committed}
use jn_server_cc.LongFile.BestEffort
use jn_server_cc.Journal.State.{get_committed}
use jn_server_cc.Journal.Epochs.{check_committed}
use jn_server_cc.Journal.Epochs.{check_serial}
use jn_server_cc.LongFile.Persistent
use jn_server_cc.Journal.State.{get_promised}
use jn_server_cc.Journal.Epochs.{check_epoch}
use jn_server_cc.Journal.Epochs.{check_request}
use jn_server_cc.Storage.{is_formatted}
use jn_server_cc.Journal.Epochs.{check_formatted}
use jn_server_cc.Base.{
  ap, ◌≡◌, refl, sym, ◌∙◌, true, [], ◌∷◌, some, Bytes, codes, pos, arith, negsuc, done, ◌>>=◌,
}
use jn_server_cc.Host.Memory.{is_file, memory, find}
use jn_server_cc.Host.Laws.{SameFile}
use jn_server_cc.Messages.{SegmentState, PrepareRecoveryResponse}
use jn_server_cc.Storage.{get_sync_log_temporary_file, get_paxos_file}
use jn_server_cc.Files.{get_in_progress_edits_file}
use jn_server_cc.Text.{print_long}
use jn_server_cc.Journal.State.{Journal}
use jn_server_cc.Journal.Recovery.{accept_recovery}
use jn_server_cc.Journal.Recovery.Accepting.{decision_of}
use jn_server_cc.Journal.Recovery.Answering.{after_checks, Answers}
use jn_server_cc.Journal.Recovery.Remembered.{prepare-accept_recovery}
use jn_server_cc.Tests.Files.{memory-FilesKeep, memory-WritesWork}
use jn_server_cc.Tests.Setup.{make_ri, crc, writing}
use jn_server_cc.EditLog.Whole.{Transactions, file_of}

abbrev segment : SegmentState
segment = record { start_txid = 1; end_txid = 2; is_in_progress = true }

abbrev two : Transactions
two = (pos 1, codes "Data") ∷ (pos 2, codes "Data") ∷ []

-- Another node has the segment, this one nothing of it.
abbrev lagging : Journal
lagging = record writing {
  disk =
      (codes "/url", file_of crc (negsuc 56) two)
      ∷ (codes "/jn/current/last-promised-epoch", codes "3\n")
      ∷ (codes "/jn/current/committed-txid", codes "0000000000000000000")
      ∷ [];
}

accepted : (accept_recovery (make_ri 3 3) segment (codes "/url") lagging).0 ≡ done tt
unfolding accept_recovery ◌>>=◌ check_formatted is_formatted check_request check_epoch get_promised
    Persistent.get check_serial check_committed get_committed BestEffort.get set_committed
    BestEffort.set abort_cur_segment get_persisted_paxos_data reading file_exists Output.abort
    Stream.close Stream.put seek_start print_padded get_paxos_file get_segment_info get_log_file
    synchronize raise_highest Stream.open_stream get_sync_log_temporary_file
    get_in_progress_edits_file persist_paxos_data persisted file_rename transaction changing
    replace_file
accepted = refl

-- The next writer asks for the segment that the recovery has put in place.
abbrev recovered : Journal
recovered = (accept_recovery (make_ri 3 3) segment (codes "/url") lagging).1

abbrev response : PrepareRecoveryResponse
response = record {
  segment_state = some segment;
  accepted_in_epoch = some 3;
  last_writer_epoch = 3;
  last_committed_txid = some 0;
}

prepared : (prepare_recovery (make_ri 4 1) (pos 1) recovered).0 ≡ done response
unfolding prepare_recovery accept_recovery ◌>>=◌ check_formatted is_formatted check_request
    check_epoch get_promised Persistent.get check_serial check_committed get_committed
    BestEffort.get set_committed BestEffort.set abort_cur_segment get_persisted_paxos_data reading
    file_exists Output.abort Stream.close Stream.put seek_start print_padded get_paxos_file
    get_segment_info get_log_file synchronize raise_highest Stream.open_stream
    get_sync_log_temporary_file get_in_progress_edits_file persist_paxos_data persisted file_rename
    transaction changing replace_file set_promised Persistent.set print_long
    update_last_promised_epoch complete_half_done answer get_writer scan_log scan Input.scan_log
    segment_state_of Stream.flush new_log strtol
prepared = refl

abbrev paxos : Bytes
paxos = get_paxos_file recovered.storage (pos 1)

there_before :
    (find paxos recovered.disk ≡ some (1 ∷ 2 ∷ 1 ∷ 3 ∷ [])) × (is_file paxos recovered.disk ≡ true)
unfolding prepare_recovery accept_recovery ◌>>=◌ check_formatted is_formatted check_request
    check_epoch get_promised Persistent.get check_serial check_committed get_committed
    BestEffort.get set_committed BestEffort.set abort_cur_segment get_persisted_paxos_data reading
    file_exists Output.abort Stream.close Stream.put seek_start print_padded get_paxos_file
    get_segment_info get_log_file synchronize raise_highest Stream.open_stream
    get_sync_log_temporary_file get_in_progress_edits_file persist_paxos_data persisted file_rename
    transaction changing replace_file set_promised Persistent.set print_long
    update_last_promised_epoch complete_half_done answer get_writer scan_log scan Input.scan_log
    segment_state_of Stream.flush new_log strtol
there_before = (refl, refl)

there_after :
    (find paxos (after_checks (make_ri 4 1) recovered).disk ≡ some (1 ∷ 2 ∷ 1 ∷ 3 ∷ []))
    × (is_file paxos (after_checks (make_ri 4 1) recovered).disk ≡ true)
unfolding prepare_recovery accept_recovery ◌>>=◌ check_formatted is_formatted check_request
    check_epoch get_promised Persistent.get check_serial check_committed get_committed
    BestEffort.get set_committed BestEffort.set abort_cur_segment get_persisted_paxos_data reading
    file_exists Output.abort Stream.close Stream.put seek_start print_padded get_paxos_file
    get_segment_info get_log_file synchronize raise_highest Stream.open_stream
    get_sync_log_temporary_file get_in_progress_edits_file persist_paxos_data persisted file_rename
    transaction changing replace_file set_promised Persistent.set print_long
    update_last_promised_epoch complete_half_done answer get_writer scan_log scan Input.scan_log
    segment_state_of Stream.flush new_log strtol
there_after = (refl, refl)

same_file : SameFile paxos (after_checks (make_ri 4 1) recovered).disk recovered.disk
same_file = (there_after.0 ∙ sym there_before.0, ap some (there_after.1 ∙ sym there_before.1))

prepare-accept_recovery_example :
    Answers (decision_of (make_ri 3 3) segment) response.segment_state response.accepted_in_epoch
prepare-accept_recovery_example =
    prepare-accept_recovery memory-FilesKeep decisions memory-WritesWork (make_ri 3 3) (make_ri 4 1)
      segment (1 ∷ 2 ∷ 1 ∷ 3 ∷ []) (codes "/url") lagging response left_alone (omega arith) refl
      refl accepted same_file prepared
