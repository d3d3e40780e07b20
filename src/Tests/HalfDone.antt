-- ===== src/Tests/HalfDone.antt =====
-- A journal that has crashed in front of the rename of a downloaded segment.
use jn_server_cc.Files.{replace_file}
use jn_server_cc.Journal.State.{changing}
use jn_server_cc.Files.{file_exists}
use jn_server_cc.Journal.State.{reading}
use jn_server_cc.Text.{print_padded}
use jn_server_cc.Files.{get_in_progress_edits_file}
use jn_server_cc.Base.{
  ◌≡◌, ◌≢◌, refl, ap, true, [], ◌∷◌, ◌++◌, some, Bytes, codes, length, length-append, arith, done,
  ◌>>=◌, ℕ,
}
use jn_server_cc.Host.Memory.{memory, Files}
use jn_server_cc.Host.Laws.{SameFile}
use jn_server_cc.Messages.{PaxosData}
use jn_server_cc.Storage.{get_sync_log_temporary_file}
use jn_server_cc.Journal.State.{Journal}
use jn_server_cc.Journal.Recovery.{complete_half_done}
use jn_server_cc.Journal.Recovery.Accepting.{Content}
use jn_server_cc.Journal.Recovery.HalfDone.{
  downloaded_file, segment_file, complete_half_done-Content,
}
use jn_server_cc.Tests.Leaving.{decisions, find-delete_ne, regular_of}
use jn_server_cc.Tests.Setup.{writing, create_transaction}

abbrev decided : PaxosData
decided = record {
  segment_state = record { start_txid = 1; end_txid = 1; is_in_progress = true };
  accepted_in_epoch = 3;
}

abbrev crashed : Journal
crashed = record writing {
  disk =
      (codes "/jn/current/edits_inprogress_0000000000000000001", [])
      ∷ (codes "/jn/current/edits_inprogress_0000000000000000001.epoch=3", create_transaction 1)
      ∷ [];
}

longer : (xs : Bytes) (y : ℕ) (ys : Bytes) → xs ++ y ∷ ys ≢ xs
longer xs y ys e = absurd (omega (arith, ap length e, length-append xs (y ∷ ys)))

apart : downloaded_file decided crashed ≢ segment_file decided crashed
unfolding get_sync_log_temporary_file
apart e = longer (segment_file decided crashed) b'.' _ e

kept :
    (d : Files)
    → SameFile
        (downloaded_file decided crashed)
        (memory.remove (segment_file decided crashed) d).1
        d
kept d =
    let e =
      find-delete_ne (downloaded_file decided crashed) (segment_file decided crashed) d apart in
    (e, regular_of (downloaded_file decided crashed) _ d e)

downloaded : Content (downloaded_file decided crashed) (create_transaction 1) crashed.disk
unfolding get_sync_log_temporary_file get_in_progress_edits_file print_padded
downloaded = (refl, refl)

completed : (complete_half_done (some decided) crashed).0 ≡ done tt
unfolding complete_half_done ◌>>=◌ reading file_exists get_sync_log_temporary_file
    get_in_progress_edits_file print_padded changing replace_file
completed = refl

complete_half_done-Content_example :
    Content
      (segment_file decided crashed)
      (create_transaction 1)
      (complete_half_done (some decided) crashed).1.disk
complete_half_done-Content_example =
    complete_half_done-Content decisions decided (create_transaction 1) crashed kept downloaded
      completed
