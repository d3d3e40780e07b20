-- ===== src/Journal/Segments/Content.antt =====
-- What the file of the segment holds while batches are written to it.
use jn_server_cc.Base.{
  modify, ◌≡◌, refl, ap, Bool, true, false, List, [], ◌∷◌, ◌++◌, some, Bytes, length, length-append,
  ℤ, pos, ◌+ℤ◌, ◌-ℤ◌, Bool-cases, inl, inr, arith, done, pure, ◌>>=◌, >>=-eq-done,
}
use mathlib.Core.List.{append-nil, append_assoc}
use jn_server_cc.Host.{Host}
use jn_server_cc.Host.Appending.{FilesAppend}
use jn_server_cc.Stream
use jn_server_cc.Stream.{Ofstream, open_stream, put, seek_start, is_open}
use jn_server_cc.LongFile.BestEffort
use jn_server_cc.EditLog.Output
use jn_server_cc.EditLog.Output.{OutputStream, new_stream, create, write_raw}
use jn_server_cc.Journal.State.{Journal, Call, get_committed}
use jn_server_cc.Journal.Segments.{
  written_to, write_records, long_sum, advance, advanced_to, write_batch,
}

-- Batches one after another: first txid, number of transactions, and their bytes.
abbrev pub Batch : Type 0
Batch = ℤ × ℤ × Bytes

abbrev pub all_records : List Batch → Bytes
all_records [] = []
all_records ((first, num, records) ∷ bs) = records ++ all_records bs

module _ ⦃host : Host⦄ where
  abbrev pub write_batches : ℤ → List Batch → Call (Unit {0})
  write_batches segment [] = pure tt
  write_batches segment ((first, num, records) ∷ bs) =
      write_batch segment first num records >>= λ _. write_batches segment bs

module _ ⦃host : Host⦄ (keep : FilesAppend) where
  -- A stream with nothing left to write, open on a file that it has written from its start.
  abbrev pub Written : Ofstream → Bytes → Bytes → host.Disk → Type 0
  Written s p text d =
      (o : host.Handle) × (s
        ≡ record { file = some o; position = length text; buffer = []; failed = false })
      × keep.IsOpen o p d
      × (host.read_file p d ≡ some text)

  -- The stream with some bytes to write behind a text.
  abbrev pub holding : host.Handle → Bytes → Bytes → Ofstream
  holding o text bytes = record {
    file = some o;
    position = length text;
    buffer = bytes;
    failed = false;
  }

  pub flushed :
      (o : host.Handle) (p text bytes : Bytes) (d : host.Disk)
      → keep.IsOpen o p d
      → host.read_file p d ≡ some text
      → (Stream.flush (holding o text bytes) d).0.failed ≡ false
      → Written
          (Stream.flush (holding o text bytes) d).0
          p
          (text ++ bytes)
          (Stream.flush (holding o text bytes) d).1
  unfolding Stream.flush
  flushed o p text [] d op content h = rw (append-nil text) (o, refl, op, content)
  flushed o p text (c ∷ bytes) d op content h =
      let w = host.write_at o (length text) (c ∷ bytes) d in
      elim (Bool-cases w.0) [
        | inr e ↦ absurd (cc (rw (Stream.flush, e) at h))
        | inl e ↦
            let (op', content') =
              keep.appends o p text (c ∷ bytes) d w.1 op content (ap (λ (b : Bool). (b, w.1)) e) in
            rw (Stream.flush, e, length-append text (c ∷ bytes)) (o, refl, op', content')
      ]

  -- The file of the current segment is open, and holds a text.
  abbrev pub SegmentHolds : Bytes → Journal → Type 0
  SegmentHolds text j =
      (s : OutputStream) × (j.cur_segment ≡ some s) × Written s.stream s.filename text j.disk

  written_to_holds :
      (s : OutputStream) (text bytes : Bytes) (j : Journal)
      → Written s.stream s.filename text j.disk
      → (written_to (some s) bytes j).0 ≡ done tt
      → SegmentHolds (text ++ bytes) (written_to (some s) bytes j).1
  unfolding written_to write_raw put is_open Output.flush
  written_to_holds s text bytes j (o, e, op, content) h =
      let e' : put bytes s.stream ≡ holding o text bytes = ap (put bytes) e in
      elim (Bool-cases (Stream.flush (holding o text bytes) j.disk).0.failed) [
        | inl f ↦ absurd (cc (rw (written_to, e', f) at h))
        | inr f ↦ rw (written_to, e') (_, refl, flushed o s.filename text bytes j.disk op content f)
      ]

  pub write_batch_written :
      (segment first num : ℤ) (records : Bytes) (j : Journal)
      → j.committed_txn_id.opened ≡ true
      → (write_batch segment first num records j).0 ≡ done tt
      → write_batch segment first num records j
        ≡ (write_records records >>= λ _. modify (advanced_to (first +ℤ num -ℤ pos 1))) j
  unfolding write_batch advance long_sum get_committed BestEffort.get ◌>>=◌
  write_batch_written segment first num records j opened h = ground arith

  committed_kept :
      (s : OutputStream) (records : Bytes) (j : Journal)
      → (written_to (some s) records j).1.committed_txn_id ≡ j.committed_txn_id
  unfolding written_to
  committed_kept s records j = refl

  pub write_batch_holds :
      (segment first num : ℤ) (records text : Bytes) (j : Journal)
      → j.committed_txn_id.opened ≡ true
      → SegmentHolds text j
      → (write_batch segment first num records j).0 ≡ done tt
      → SegmentHolds (text ++ records) (write_batch segment first num records j).1
        × ((write_batch segment first num records j).1.committed_txn_id.opened ≡ true)
  unfolding write_records ◌>>=◌
  write_batch_holds segment first num records text j opened (s, is, w) h =
      let q = write_batch_written segment first num records j opened h in
      let (u, e1, h1, q1) =
        >>=-eq-done (write_records records) (λ _. modify (advanced_to (first +ℤ num -ℤ pos 1))) j tt
          (rw q at h) in
      let e2 : (written_to (some s) records j).0 ≡ done tt = rw (write_records, is) at e1 in
      let same : write_records records j ≡ written_to (some s) records j =
        rw (write_records, is) refl in
      rw (q, q1, same)
        (written_to_holds s text records j w e2, rw (committed_kept s records j) opened)

  pub write_batches_holds :
      (segment : ℤ) (bs : List Batch) (text : Bytes) (j : Journal)
      → j.committed_txn_id.opened ≡ true
      → SegmentHolds text j
      → (write_batches segment bs j).0 ≡ done tt
      → SegmentHolds (text ++ all_records bs) (write_batches segment bs j).1
  unfolding ◌>>=◌
  write_batches_holds segment [] text j opened holds h = rw (append-nil text) holds
  write_batches_holds segment ((first, num, records) ∷ bs) text j opened holds h =
      let (u, e, h', q) =
        >>=-eq-done (write_batch segment first num records) (λ _. write_batches segment bs) j tt
          h in
      let (holds', opened') = write_batch_holds segment first num records text j opened holds e in
      rw (q, ← append_assoc text records (all_records bs))
        (write_batches_holds segment bs (text ++ records)
          (write_batch segment first num records j).1 opened' holds' h')
