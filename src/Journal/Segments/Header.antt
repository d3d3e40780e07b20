-- ===== src/Journal/Segments/Header.antt =====
-- What the file of a segment holds once it is started, and what is scanned from it later.
use jn_server_cc.Base.{
  ℕ, ◌<◌, ◌^◌, ◌≡◌, refl, ap, true, List, [], ◌++◌, Option, Option-cases, none, some, Bytes, length,
  ℤ, Bool-cases, inl, inr, Outcome, done, ◌>>=◌, >>=-eq-done,
}
use mathlib.Core.List.{append_assoc}
use jn_server_cc.Base.Leaves.{Leaves, Leaves->>=}
use jn_server_cc.Messages.{to_u64}
use jn_server_cc.Host.{Host}
use jn_server_cc.Host.Appending.{FilesAppend}
use jn_server_cc.Stream
use jn_server_cc.Stream.{Ofstream, open_stream, put, seek_start, is_open}
use jn_server_cc.EditLog.Transaction.{invalid_txid, write_int}
use jn_server_cc.EditLog.Input.{scan_text}
use jn_server_cc.EditLog.Whole.{
  Transactions, records, AreTxids, last_of, file_of, scan_text-file_of,
}
use jn_server_cc.EditLog.Output
use jn_server_cc.EditLog.Output.{OutputStream, new_stream, create}
use jn_server_cc.Files.{get_in_progress_edits_file}
use jn_server_cc.Manager
use jn_server_cc.Journal.State.{Journal, RequestInfo}
use jn_server_cc.Journal.Segments.{open_segment, begin_segment, start_log_segment}
use jn_server_cc.Journal.Segments.Content.{
  holding, flushed, SegmentHolds, Batch, write_batches, all_records, write_batches_holds,
}

abbrev pub header_bytes : ℤ → Bytes
header_bytes layout_version = write_int (to_u64 layout_version) ++ write_int 0

module _ ⦃host : Host⦄ where
  -- The file of the current segment, scanned.
  abbrev pub scanned_segment : Journal → Option (Outcome ℤ)
  scanned_segment j = elim j.cur_segment [
    | none ↦ none
    | some s ↦ elim (host.read_file s.filename j.disk) [ none ↦ none | some t ↦ some (scan_text t) ]
  ]

module _ ⦃host : Host⦄ (keep : FilesAppend) where
  open_segment_holds :
      (txid version : ℤ) (j : Journal)
      → (open_segment txid version j).0 ≡ done tt
      → SegmentHolds keep (header_bytes version) (open_segment txid version j).1
  unfolding open_segment Manager.start_log_segment new_stream create open_stream put is_open
      seek_start Output.flush Stream.flush
  open_segment_holds txid version j h =
      let p = get_in_progress_edits_file j.storage.current_dir txid in
      let opened = host.open_out p j.disk in
      elim (Option-cases opened.0) [
        | inl e ↦ absurd (cc (rw (open_segment, e) at h))
        | inr (o, e) ↦
            let (op, content) =
              keep.opens p j.disk opened.1 o (ap (λ (x : Option host.Handle). (x, opened.1)) e) in
            elim (Bool-cases
              (Stream.flush (holding keep o [] (header_bytes version)) opened.1).0.failed) [
                | inl f ↦ absurd (cc (rw (open_segment, e, f) at h))
                | inr f ↦
                    rw (open_segment, e)
                      (_, refl, flushed keep o p [] (header_bytes version) opened.1 op content f)
              ]
      ]

  begin_segment_holds :
      (txid version : ℤ)
      → Leaves
          (SegmentHolds keep (header_bytes version))
          (open_segment txid version >>= λ _. begin_segment txid)
  unfolding begin_segment ◌>>=◌
  begin_segment_holds txid version = record {
    at = λ j u h.
        let (a, e, h', q) =
          >>=-eq-done (open_segment txid version) (λ _. begin_segment txid) j u h in
        rw q (open_segment_holds txid version j e);
  }

  pub start_log_segment_holds :
      (req : RequestInfo) (txid version : ℤ) (j : Journal)
      → (start_log_segment req txid version j).0 ≡ done tt
      → SegmentHolds keep (header_bytes version) (start_log_segment req txid version j).1
  unfolding start_log_segment
  start_log_segment_holds req txid version j h =
      let all : Leaves (SegmentHolds keep (header_bytes version))
          (start_log_segment req txid version) =
        search (Leaves->>=, begin_segment_holds) depth 12 in
      all.at j tt h

  scanned_of :
      (text : Bytes) (j : Journal)
      → SegmentHolds keep text j
      → scanned_segment j ≡ some (scan_text text)
  scanned_of text j (s, is, (o, e, op, content)) = rw (scanned_segment, is, content) refl

  write_batches_scanned :
      (crc : Bytes → ℕ) (version segment : ℤ) (ts : Transactions) (bs : List Batch) (j : Journal)
      → length (file_of crc version ts) < 2 ^ 32
      → ((b : Bytes) → crc b < 2 ^ 32)
      → AreTxids ts
      → all_records bs ≡ records crc ts
      → j.committed_txn_id.opened ≡ true
      → SegmentHolds keep (header_bytes version) j
      → (write_batches segment bs j).0 ≡ done tt
      → scanned_segment (write_batches segment bs j).1 ≡ some (done (last_of invalid_txid ts))
  write_batches_scanned crc version segment ts bs j small sum ok same opened holds h =
      let held = write_batches_holds keep segment bs (header_bytes version) j opened holds h in
      let text : header_bytes version ++ all_records bs ≡ file_of crc version ts =
        rw same (append_assoc (write_int (to_u64 version)) (write_int 0) (records crc ts)) in
      rw
        (
          scanned_of (header_bytes version ++ all_records bs) (write_batches segment bs j).1 held,
          text,
        )
        (ap some (scan_text-file_of crc version ts small sum ok))

  -- Where files keep what is appended: a startLogSegment that succeeds and leaves the committed
  -- txid read, followed by batches that together are the bytes of some transactions and all
  -- succeed behind the checks, leaves a file of which the scan gives the highest txid of the
  -- transactions. The file has fewer than 2 ^ 32 bytes, every checksum is below 2 ^ 32, and every
  -- txid is a long and not INVALID_TXID.
  pub start_log_segment_scanned :
      (crc : Bytes → ℕ) (req : RequestInfo) (txid version : ℤ) (ts : Transactions) (bs : List Batch)
      (j : Journal)
      → length (file_of crc version ts) < 2 ^ 32
      → ((b : Bytes) → crc b < 2 ^ 32)
      → AreTxids ts
      → all_records bs ≡ records crc ts
      → (start_log_segment req txid version j).0 ≡ done tt
      → (start_log_segment req txid version j).1.committed_txn_id.opened ≡ true
      → (write_batches txid bs (start_log_segment req txid version j).1).0 ≡ done tt
      → scanned_segment (write_batches txid bs (start_log_segment req txid version j).1).1
        ≡ some (done (last_of invalid_txid ts))
  start_log_segment_scanned crc req txid version ts bs j small sum ok same started opened h =
      write_batches_scanned crc version txid ts bs (start_log_segment req txid version j).1 small
        sum ok same opened (start_log_segment_holds req txid version j started) h
