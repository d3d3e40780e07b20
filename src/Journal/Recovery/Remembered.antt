-- ===== src/Journal/Recovery/Remembered.antt =====
-- `acceptRecovery`, and `prepareRecovery` after it.
use jn_server_cc.Base.{◌≡◌, ◌<◌, ◌^◌, false, some, Bytes, is_empty, ℤ, arith, done, ◌>>=◌}
use jn_server_cc.Host.{Host}
use jn_server_cc.Host.Laws.{FilesKeep, DecisionsKeep, WritesWork, LeavesAlone, SameFile}
use jn_server_cc.Messages.{SegmentState, PaxosData, PrepareRecoveryResponse, to_long}
use jn_server_cc.Files.{file_exists}
use jn_server_cc.Storage.{
  JnStorage, get_paxos_file, get_sync_log_temporary_file, get_in_progress_edit_log,
}
use jn_server_cc.Journal.State.{
  Journal, RequestInfo, reading, get_promised, set_promised, get_committed, set_committed,
}
use jn_server_cc.Journal.Epochs.{
  check_formatted, update_last_promised_epoch, check_epoch, check_serial, check_committed,
  check_request, abort_cur_segment,
}
use jn_server_cc.Journal.Recovery.{get_persisted_paxos_data, accept_recovery, prepare_recovery}
use jn_server_cc.Journal.Recovery.Accepting.{IsPersisted, decision_of, accept_recovery-IsPersisted}
use jn_server_cc.Journal.Recovery.Answering.{after_checks, Answers, prepare_recovery-Answers}

module _ ⦃host : Host⦄ where
  check_epoch_storage :
      (req : RequestInfo) (j : Journal) → (check_epoch req j).1.storage ≡ j.storage
  unfolding check_epoch update_last_promised_epoch get_promised set_promised ◌>>=◌
  check_epoch_storage req j = ground arith

  check_serial_storage :
      (req : RequestInfo) (j : Journal) → (check_serial req j).1.storage ≡ j.storage
  unfolding check_serial ◌>>=◌
  check_serial_storage req j = ground arith

  check_committed_storage :
      (req : RequestInfo) (j : Journal) → (check_committed req j).1.storage ≡ j.storage
  unfolding check_committed get_committed set_committed ◌>>=◌
  check_committed_storage req j = ground arith

  check_request_storage :
      (req : RequestInfo) (j : Journal) → (check_request req j).1.storage ≡ j.storage
  unfolding check_request ◌>>=◌
  check_request_storage req j = ground (
    arith,
    check_epoch_storage req j,
    check_serial_storage req (check_epoch req j).1,
    check_committed_storage req (check_serial req (check_epoch req j).1).1,
  )

  after_checks_storage :
      (req : RequestInfo) (j : Journal) → (after_checks req j).storage ≡ j.storage
  unfolding check_formatted abort_cur_segment ◌>>=◌
  after_checks_storage req j = ground (arith, check_request_storage req j)

  IsPersisted-SameFile :
      (txid : ℤ) (p : PaxosData) (j k : Journal)
      → k.storage ≡ j.storage
      → SameFile (get_paxos_file j.storage txid) k.disk j.disk
      → IsPersisted txid p j
      → IsPersisted txid p k
  unfolding get_persisted_paxos_data file_exists reading ◌>>=◌
  IsPersisted-SameFile txid p j k s (c, r) h = ground arith

  -- After an acceptRecovery that succeeds, a prepareRecovery for the same segment that succeeds,
  -- with any request whose checks leave the file of the decision as it is, answers the segment
  -- that was accepted with the epoch it was accepted in, or, where the segment has been finalized
  -- since, a finalized segment: where the decision serializes to some bytes and what is
  -- serialized parses as the message, files keep what is written and renamed, a file that has
  -- been opened can be written, and what is done to the files of the segment leaves the file of
  -- the decision alone. The first txid is below 2 ^ 64.
  pub prepare-accept_recovery :
      (keep : FilesKeep) (decisions : DecisionsKeep) (works : WritesWork) (req req2 : RequestInfo)
      (seg : SegmentState) (text url : Bytes) (j : Journal) (r : PrepareRecoveryResponse)
      → ((s : JnStorage)
          → LeavesAlone
              (get_sync_log_temporary_file s (to_long seg.start_txid) req.epoch)
              (get_in_progress_edit_log s (to_long seg.start_txid))
              (get_paxos_file s (to_long seg.start_txid)))
      → seg.start_txid < 2 ^ 64
      → host.serialize (decision_of req seg) ≡ some text
      → is_empty text ≡ false
      → (accept_recovery req seg url j).0 ≡ done tt
      → SameFile
          (get_paxos_file (accept_recovery req seg url j).1.storage (to_long seg.start_txid))
          (after_checks req2 (accept_recovery req seg url j).1).disk
          (accept_recovery req seg url j).1.disk
      → (prepare_recovery req2 (to_long seg.start_txid) (accept_recovery req seg url j).1).0
        ≡ done r
      → Answers (decision_of req seg) r.segment_state r.accepted_in_epoch
  prepare-accept_recovery keep decisions works req req2 seg text url j r alone small ser some_text
        accepted same prepared =
      let k = (accept_recovery req seg url j).1 in
      let persisted =
        accept_recovery-IsPersisted keep decisions works req seg text alone small ser some_text url
          j accepted in
      prepare_recovery-Answers req2 (to_long seg.start_txid) (decision_of req seg) k r
        (IsPersisted-SameFile (to_long seg.start_txid) (decision_of req seg) k (after_checks req2 k)
          (after_checks_storage req2 k) same persisted)
        prepared
