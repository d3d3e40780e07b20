-- ===== src/Journal/Segments/Placed.antt =====
-- Where the current segment is while it is written: its file has the name for its first txid.
use jn_server_cc.Base.{
  modify, ◌≡◌, refl, true, List, [], ◌∷◌, some, Bytes, ℤ, pos, ◌+ℤ◌, ◌-ℤ◌, done, ◌>>=◌, >>=-eq-done,
}
use jn_server_cc.Base.Leaves.{Leaves, Leaves->>=}
use jn_server_cc.Host.{Host}
use jn_server_cc.Host.Appending.{FilesAppend}
use jn_server_cc.EditLog.Output
use jn_server_cc.EditLog.Output.{OutputStream, new_stream, create, write_raw}
use jn_server_cc.Files.{get_in_progress_edits_file}
use jn_server_cc.Manager
use jn_server_cc.Journal.State.{Journal, RequestInfo}
use jn_server_cc.Journal.Segments.{
  open_segment, begin_segment, start_log_segment, written_to, write_records, advanced_to,
  write_batch,
}
use jn_server_cc.Journal.Segments.Content.{
  SegmentHolds, Batch, write_batches, write_batch_written, write_batch_holds,
}

module _ ⦃host : Host⦄ where
  -- The current segment begins at the txid, and its file is the one in progress from there.
  abbrev pub Placed : ℤ → Journal → Type 0
  Placed start j =
      (s : OutputStream) × (j.cur_segment ≡ some s)
      × (s.filename ≡ get_in_progress_edits_file j.storage.current_dir start)
      × (j.cur_segment_txid ≡ start)

  begun-Placed :
      (txid version : ℤ)
      → Leaves (Placed txid) (open_segment txid version >>= λ _. begin_segment txid)
  unfolding begin_segment open_segment Manager.start_log_segment new_stream create Output.flush
      ◌>>=◌
  begun-Placed txid version = record {
    at = λ j u h.
        let (a, e, h', q) =
          >>=-eq-done (open_segment txid version) (λ _. begin_segment txid) j u h in
        rw q (_, refl, refl, refl);
  }

  pub start_log_segment-Placed :
      (req : RequestInfo) (txid version : ℤ) (j : Journal)
      → (start_log_segment req txid version j).0 ≡ done tt
      → Placed txid (start_log_segment req txid version j).1
  unfolding start_log_segment
  start_log_segment-Placed req txid version j h =
      let all : Leaves (Placed txid) (start_log_segment req txid version) =
        search (Leaves->>=, begun-Placed) depth 12 in
      all.at j tt h

  written_to-Placed :
      (start : ℤ) (records : Bytes) (j : Journal)
      → Placed start j
      → Placed start (write_records records j).1
  unfolding write_records written_to Output.flush write_raw
  written_to-Placed start records j (s, is, name, txid) =
      rw (write_records, is) (_, refl, name, txid)

module _ ⦃host : Host⦄ (keep : FilesAppend) where
  write_batch-Placed :
      (start segment first num : ℤ) (records : Bytes) (j : Journal)
      → j.committed_txn_id.opened ≡ true
      → (write_batch segment first num records j).0 ≡ done tt
      → Placed start j
      → Placed start (write_batch segment first num records j).1
  unfolding ◌>>=◌
  write_batch-Placed start segment first num records j opened h p =
      let q = write_batch_written keep segment first num records j opened h in
      let (u, e1, h1, q1) =
        >>=-eq-done (write_records records) (λ _. modify (advanced_to (first +ℤ num -ℤ pos 1))) j tt
          (rw q at h) in
      rw (q, q1) (written_to-Placed start records j p)

  pub write_batches-Placed :
      (start segment : ℤ) (bs : List Batch) (text : Bytes) (j : Journal)
      → j.committed_txn_id.opened ≡ true
      → SegmentHolds keep text j
      → (write_batches segment bs j).0 ≡ done tt
      → Placed start j
      → Placed start (write_batches segment bs j).1
  unfolding ◌>>=◌
  write_batches-Placed start segment [] text j opened holds h p = p
  write_batches-Placed start segment ((first, num, records) ∷ bs) text j opened holds h p =
      let (u, e, h', q) =
        >>=-eq-done (write_batch segment first num records) (λ _. write_batches segment bs) j tt
          h in
      let (holds', opened') =
        write_batch_holds keep segment first num records text j opened holds e in
      rw q (
        write_batches-Placed start segment bs _ (write_batch segment first num records j).1 opened'
          holds' h' (write_batch-Placed start segment first num records j opened e p))
