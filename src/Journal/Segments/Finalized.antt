-- ===== src/Journal/Segments/Finalized.antt =====
-- What the finalized file of a segment holds that is started, written and finalized.
use jn_server_cc.Base.{
  ℕ, ◌<◌, ◌^◌, ◌≡◌, sym, ap, ◌∙◌, true, false, List, ◌++◌, some, Bytes, length, ℤ, done, ◌>>=◌,
}
use mathlib.Core.List.{append_assoc}
use mathlib.Core.Path.{subst}
use jn_server_cc.Messages.{to_u64}
use mathlib.Core.Option.{some-injective}
use jn_server_cc.Host.{Host}
use jn_server_cc.Host.Appending.{FilesAppend}
use jn_server_cc.Stream
use jn_server_cc.EditLog.Transaction.{invalid_txid, write_int}
use jn_server_cc.EditLog.Input.{scan_text}
use jn_server_cc.EditLog.File.{EditLogFile}
use jn_server_cc.EditLog.Whole.{
  Transactions, records, AreTxids, last_of, file_of, scan_text-file_of,
}
use jn_server_cc.EditLog.Output
use jn_server_cc.EditLog.Output.{OutputStream}
use jn_server_cc.Files.{get_in_progress_edits_file, get_finalized_edits_file}
use jn_server_cc.Storage.{JnStorage}
use jn_server_cc.Manager.{get_log_file}
use jn_server_cc.Journal.State.{Journal, RequestInfo}
use jn_server_cc.Journal.Epochs.{abort_cur_segment}
use jn_server_cc.Journal.Segments.{renamed_to, finalize_file, finalize_segment, start_log_segment}
use jn_server_cc.Journal.Segments.Content.{
  SegmentHolds, Batch, write_batches, all_records, write_batches_holds,
}
use jn_server_cc.Journal.Segments.Header.{header_bytes, start_log_segment_holds}
use jn_server_cc.Journal.Segments.Placed.{Placed, start_log_segment-Placed, write_batches-Placed}
use jn_server_cc.Journal.Segments.Renaming.{
  finalized_file, in_progress_file, SparedByPurge, purge_kept, renamed_done, stored_aborted,
  finalize_file_renames, finalize_current,
}

module _ ⦃host : Host⦄ where
  -- The journal after startLogSegment and some batches.
  abbrev pub written_segment : RequestInfo → ℤ → ℤ → List Batch → Journal → Journal
  written_segment req txid version bs j =
      (write_batches txid bs (start_log_segment req txid version j).1).1

  -- Where getLogFile finds no finalized log for the segment.
  abbrev pub FindsInProgress : ℤ → Journal → Type 0
  FindsInProgress start j =
      (l : EditLogFile)
      → get_log_file j.storage start (abort_cur_segment j).1.disk ≡ done l
      → l.in_progress ≡ true

module _ ⦃host : Host⦄ (keep : FilesAppend) where
  -- Finalizing moves the content of the file, over the paths of a storage.
  abbrev Moved : ℤ → ℤ → Bytes → Journal → JnStorage → Type 0
  Moved start end text j s =
      ((l : EditLogFile) → get_log_file s start j.disk ≡ done l → l.in_progress ≡ true)
      → SparedByPurge (get_finalized_edits_file s.current_dir start end) s
      → host.read_file (get_in_progress_edits_file s.current_dir start) j.disk ≡ some text
      → (finalize_file start end false j).0 ≡ done tt
      → host.read_file (get_finalized_edits_file s.current_dir start end)
          (finalize_file start end false j).1.disk
        ≡ some text

  finalize_file-Moved :
      (start end : ℤ) (text : Bytes) (j : Journal) → Moved start end text j j.storage
  unfolding renamed_to
  finalize_file-Moved start end text j found spares content h =
      let (txid, e, q) = finalize_file_renames start end j found h in
      let fin = finalized_file start end j in
      let (moved, stored) = renamed_done start end j e in
      rw q (
        purge_kept fin txid (renamed_to start end j).1 spares
        ∙ keep.renames (in_progress_file start j) fin text j.disk (renamed_to start end j).1.disk
            moved content)

  -- Ending the current segment closes its file.
  aborted_holds :
      (start : ℤ) (text : Bytes) (j : Journal)
      → SegmentHolds keep text j
      → Placed start j
      → host.read_file (in_progress_file start j) (abort_cur_segment j).1.disk ≡ some text
  unfolding abort_cur_segment Output.abort Stream.close Stream.flush ◌>>=◌
  aborted_holds start text j (s, is, (o, e, op, content)) (s', is', name, txid) =
      let same : s ≡ s' = some-injective s s' (sym is ∙ is') in
      let here = ap (λ (x : OutputStream). x.filename) same ∙ name in
      rw (← here, abort_cur_segment, is, e) (keep.closes o s.filename text j.disk op content)

  finalize_segment_holds :
      (start end : ℤ) (text : Bytes) (j : Journal)
      → SegmentHolds keep text j
      → Placed start j
      → FindsInProgress start j
      → SparedByPurge (finalized_file start end j) j.storage
      → (finalize_segment start end j).0 ≡ done tt
      → host.read_file (finalized_file start end j) (finalize_segment start end j).1.disk
        ≡ some text
  finalize_segment_holds start end text j holds p found spares h =
      let q = finalize_current start end j (p.3) h in
      let k = (abort_cur_segment j).1 in
      let moved =
        subst (Moved start end text k) (stored_aborted j) (finalize_file-Moved start end text k) in
      let success = ap (λ r. r.0) (sym q) ∙ h in
      rw q (moved found spares (aborted_holds start text j holds p) success)

  -- Where files keep what is appended, when they are closed and renamed too: a startLogSegment
  -- that succeeds and leaves the committed txid read, batches that together are the bytes of some
  -- transactions and succeed behind the checks, and a finalizeLogSegment that succeeds behind the
  -- checks of the request, where getLogFile finds a log in progress: the finalized file holds the
  -- header and the transactions, and its scan gives the highest txid of them. Deleting a decision
  -- leaves the finalized file alone; the file has fewer than 2 ^ 32 bytes, every checksum is
  -- below 2 ^ 32, and every txid is a long and not INVALID_TXID.
  pub log_segment_finalized :
      (crc : Bytes → ℕ) (req : RequestInfo) (txid end version : ℤ) (ts : Transactions)
      (bs : List Batch) (j : Journal)
      → length (file_of crc version ts) < 2 ^ 32
      → ((b : Bytes) → crc b < 2 ^ 32)
      → AreTxids ts
      → all_records bs ≡ records crc ts
      → (start_log_segment req txid version j).0 ≡ done tt
      → (start_log_segment req txid version j).1.committed_txn_id.opened ≡ true
      → (write_batches txid bs (start_log_segment req txid version j).1).0 ≡ done tt
      → FindsInProgress txid (written_segment req txid version bs j)
      → SparedByPurge
          (finalized_file txid end (written_segment req txid version bs j))
          (written_segment req txid version bs j).storage
      → (finalize_segment txid end (written_segment req txid version bs j)).0 ≡ done tt
      → (host.read_file
            (finalized_file txid end (written_segment req txid version bs j))
            (finalize_segment txid end (written_segment req txid version bs j)).1.disk
          ≡ some (file_of crc version ts))
        × (scan_text (file_of crc version ts) ≡ done (last_of invalid_txid ts))
  log_segment_finalized crc req txid end version ts bs j small sum ok same started opened done_
        found spares h =
      let begun = (start_log_segment req txid version j).1 in
      let held = start_log_segment_holds keep req txid version j started in
      let placed = start_log_segment-Placed req txid version j started in
      let written = written_segment req txid version bs j in
      let holds = write_batches_holds keep txid bs (header_bytes version) begun opened held done_ in
      let there =
        write_batches-Placed keep txid txid bs (header_bytes version) begun opened held done_
          placed in
      let text : header_bytes version ++ all_records bs ≡ file_of crc version ts =
        rw same (append_assoc (write_int (to_u64 version)) (write_int 0) (records crc ts)) in
      (
        finalize_segment_holds txid end (header_bytes version ++ all_records bs) written holds there
              found spares h
            ∙ ap some text,
        scan_text-file_of crc version ts small sum ok,
      )
