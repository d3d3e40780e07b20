-- ===== src/Tests/Segments.antt =====
-- Batches, recoveries and manifests of a journal that is being written.
use jn_server_cc.Base.{
  ℕ, ◌≡◌, ◌≢◌, ◌⊎◌, inl, ◌↔◌, refl, true, false, [], ◌∷◌, none, some, Bytes, codes, pos, ◌+ℤ◌, ◌-ℤ◌,
  ◌>>=◌, arith, done, fail, error, undefined,
}
use jn_server_cc.Host.Memory.{memory}
use jn_server_cc.Messages.{SegmentState, to_u64}
use jn_server_cc.LongFile.BestEffort
use jn_server_cc.Stream.{is_open, flush, open_stream}
use jn_server_cc.Stream
use jn_server_cc.Text.{print_padded}
use jn_server_cc.Files.{get_in_progress_edits_file}
use jn_server_cc.Storage.{get_sync_log_temporary_file}
use jn_server_cc.EditLog.Output
use jn_server_cc.EditLog.Transaction.{transaction}
use jn_server_cc.EditLog.File.{EditLogFile}
use jn_server_cc.Journal.State.{Journal, get_committed}
use jn_server_cc.Journal.Epochs.{dropped}
use jn_server_cc.Text.{is_long}
use jn_server_cc.Journal.Segments.{write_batch}
use jn_server_cc.Journal.Segments.Writing.{
  write_batch_refused, write_batch_success, write_batch_null,
}
use jn_server_cc.Journal.Recovery.{lower_highest, sync_log, synchronize}
use jn_server_cc.Journal.Recovery.Decision.{Holds, synchronize_safe}
use jn_server_cc.Journal.Manifest.{check_if_logs_in_sequence}
use jn_server_cc.Journal.Manifest.Sequence.{IsDisjoint, check-IsDisjoint}
use jn_server_cc.Tests.Setup.{make_ri, create_transaction, writing}

other_segment : writing.cur_segment_txid ≢ pos 7
other_segment e = absurd (cc e)

write_batch_refused_example :
    ((writing.cur_segment_txid ≢ pos 7)
      × (write_batch (pos 7) (pos 3) (pos 1) [] writing
          ≡ (fail error, dropped writing.cur_segment writing)))
    ⊎ ((writing.cur_segment_txid ≡ pos 7)
        × (write_batch (pos 7) (pos 3) (pos 1) [] writing ≡ (fail error, writing)))
write_batch_refused_example =
    write_batch_refused (pos 7) (pos 3) (pos 1) [] writing (inl other_segment)

batch_written : (write_batch (pos 1) (pos 2) (pos 1) (create_transaction 2) writing).0 ≡ done tt
unfolding is_long ◌+ℤ◌ ◌-ℤ◌ write_batch get_committed BestEffort.get Output.flush Output.write_raw
    ◌>>=◌ is_open Stream.put flush transaction
batch_written = refl

write_batch_success_example :
    (writing.cur_segment_txid ≡ pos 1)
    × (writing.next_txid ≡ pos 2)
    × ((write_batch (pos 1) (pos 2) (pos 1) (create_transaction 2) writing).1.next_txid
        ≡ pos 2 +ℤ pos 1)
    × ((write_batch (pos 1) (pos 2) (pos 1) (create_transaction 2) writing).1.highest_written_txid
        ≡ pos 2 +ℤ pos 1 -ℤ pos 1)
    × ((write_batch (pos 1) (pos 2) (pos 1) (create_transaction 2) writing).1.cur_segment_txid
        ≡ pos 1)
    × (is_long (pos 2 +ℤ pos 1) ≡ true)
write_batch_success_example =
    write_batch_success (pos 1) (pos 2) (pos 1) (create_transaction 2) writing batch_written

-- As after `startLogSegment` was refused by its checks with the segment already ended.
abbrev closed_segment : Journal
closed_segment = record writing { cur_segment = none }

committed_there : (get_committed closed_segment).0 ≡ done (pos 0)
unfolding get_committed BestEffort.get
committed_there = refl

write_batch_null_example :
    (write_batch closed_segment.cur_segment_txid closed_segment.next_txid
      (pos 1)
      []
      closed_segment).0
    ≡ fail undefined
write_batch_null_example = write_batch_null (pos 1) (pos 0) [] closed_segment refl committed_there

abbrev segment_to : ℕ → SegmentState
segment_to end = record { start_txid = 1; end_txid = end; is_in_progress = true }

-- The other journal has the segment up to 5, this one up to 3.
abbrev behind : Journal
behind = record writing {
  committed_txn_id = record writing.committed_txn_id { value = pos 2 };
  disk = (codes "/url", create_transaction 1) ∷ writing.disk;
}

different : (segment_to 3).end_txid ≢ (segment_to 5).end_txid
different e = absurd (omega (arith, e))

committed_behind : (get_committed behind).0 ≡ done (pos 2)
unfolding get_committed BestEffort.get
committed_behind = refl

abbrev temporary : Bytes
temporary = codes "/jn/current/edits_inprogress_0000000000000000001.epoch=3"

downloaded :
    (synchronize (make_ri 3 3) (segment_to 5) (codes "/url") (some (segment_to 3)) behind).0
    ≡ done temporary
unfolding synchronize sync_log get_committed BestEffort.get ◌>>=◌ lower_highest open_stream
    get_sync_log_temporary_file get_in_progress_edits_file print_padded
downloaded = refl

synchronize_safe_example :
    (true ≡ true)
    × ((¬ Holds (segment_to 3) (to_u64 (pos 2))) ⊎ Holds (segment_to 5) (to_u64 (pos 2)))
synchronize_safe_example =
    synchronize_safe (make_ri 3 3) (segment_to 5) (segment_to 3) (codes "/url") temporary (pos 2)
      behind different committed_behind downloaded

abbrev log_of : ℕ → ℕ → EditLogFile
log_of first last = record {
  first_txid = pos first;
  last_txid = pos last;
  full_file_name = [];
  in_progress = false;
  corrupt_header = false;
}

check-IsDisjoint_example :
    (check_if_logs_in_sequence (log_of 1 3 ∷ log_of 4 9 ∷ []) ≡ done tt)
    ↔ IsDisjoint (log_of 1 3 ∷ log_of 4 9 ∷ [])
check-IsDisjoint_example =
    check-IsDisjoint (log_of 1 3 ∷ log_of 4 9 ∷ []) (omega arith, (omega arith, tt))
