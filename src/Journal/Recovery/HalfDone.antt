-- ===== src/Journal/Recovery/HalfDone.antt =====
-- `completeHalfDoneAcceptRecovery`, after a crash between persisting a decision and putting the
-- downloaded segment in place.
use jn_server_cc.Base.{◌≡◌, ap, true, some, Bytes, arith, done, ◌>>=◌}
use jn_server_cc.Host.{Host}
use jn_server_cc.Host.Laws.{DecisionsKeep, SameFile}
use jn_server_cc.Messages.{PaxosData, to_long}
use jn_server_cc.Files.{file_exists, file_rename, clear_target, replace_file}
use jn_server_cc.Storage.{get_sync_log_temporary_file, get_in_progress_edit_log}
use jn_server_cc.Journal.State.{Journal, reading, changing}
use jn_server_cc.Journal.Recovery.{complete_half_done}
use jn_server_cc.Journal.Recovery.Accepting.{Content, clear_target-Content}

module _ ⦃host : Host⦄ where
  -- The file that the segment of a decision was downloaded to, and the file of the segment.
  abbrev pub downloaded_file : PaxosData → Journal → Bytes
  downloaded_file p j =
      get_sync_log_temporary_file j.storage (to_long p.segment_state.start_txid)
        (to_long p.accepted_in_epoch)

  abbrev pub segment_file : PaxosData → Journal → Bytes
  segment_file p j = get_in_progress_edit_log j.storage (to_long p.segment_state.start_txid)

  half_done_parts :
      (p : PaxosData) (j : Journal)
      → host.is_regular (downloaded_file p j) j.disk ≡ some true
      → (complete_half_done (some p) j).0 ≡ done tt
      → ((replace_file (downloaded_file p j) (segment_file p j) j.disk).0 ≡ true)
        × ((complete_half_done (some p) j).1.disk
            ≡ (replace_file (downloaded_file p j) (segment_file p j) j.disk).1)
  unfolding complete_half_done file_exists reading changing ◌>>=◌
  half_done_parts p j there h = ground arith

  replaced :
      (decisions : DecisionsKeep) (a b text : Bytes) (d : host.Disk)
      → ((d' : host.Disk) → SameFile a (host.remove b d').1 d')
      → Content a text d
      → (replace_file a b d).0 ≡ true
      → Content b text (replace_file a b d).1
  unfolding replace_file file_rename
  replaced decisions a b text d removed c h =
      let d1 = clear_target 5 b d in
      let c1 = clear_target-Content 5 b a text d removed c in
      decisions.renamed a b text d1 (host.rename a b d1).1 (ap (λ x. (x, (host.rename a b d1).1)) h)
        c1.0

  -- Where the file that the segment of a decision was downloaded to is there with some text, a
  -- completion of the half-done recovery that succeeds leaves that text as the content of the
  -- segment's file: where a rename that works keeps the content and removing the segment's file
  -- leaves the downloaded file alone.
  pub complete_half_done-Content :
      (decisions : DecisionsKeep) (p : PaxosData) (text : Bytes) (j : Journal)
      → ((d : host.Disk) → SameFile (downloaded_file p j) (host.remove (segment_file p j) d).1 d)
      → Content (downloaded_file p j) text j.disk
      → (complete_half_done (some p) j).0 ≡ done tt
      → Content (segment_file p j) text (complete_half_done (some p) j).1.disk
  complete_half_done-Content decisions p text j removed c h =
      let (worked, disk) = half_done_parts p j c.1 h in
      rw (disk)
        (replaced decisions (downloaded_file p j) (segment_file p j) text j.disk removed c worked)
