-- ===== src/Journal/Segments/Accepting.antt =====
-- Which requests the checks let through, and that `journal` then takes the batch.
use jn_server_cc.Base.{
  ◌+ℤ◌, ◌-ℤ◌, pos, >>=-of_done, some, Bytes, ◌≡◌, refl, ◌∙◌, ap, sym, true, ℤ, ◌≤ℤ◌, ◌<ℤ◌, eqb_ℤ,
  eqb_ℤ_refl, not, arith, done, error, stop_if, ◌>>=◌, ◌>>◌,
}
use jn_server_cc.Host.{Host}
use jn_server_cc.Text.{is_long}
use jn_server_cc.Journal.Segments.Writing.{next_of_last}
use jn_server_cc.EditLog.Output
use jn_server_cc.EditLog.Output.{OutputStream}
use jn_server_cc.Storage.{is_formatted}
use jn_server_cc.Journal.Segments.{write_records, long_sum, advance, write_batch, journal}
use jn_server_cc.LongFile.Persistent.{get}
use jn_server_cc.LongFile.BestEffort
use jn_server_cc.Journal.State.{
  Journal, RequestInfo, get_promised, get_writer, get_committed, set_committed,
}
use jn_server_cc.Journal.Epochs.{
  check_formatted, check_epoch, check_serial, check_committed, check_request, check_write_request,
}
use jn_server_cc.Journal.Epochs.Promise.{promised_epoch, IsLoaded}

module _ ⦃host : Host⦄ where
  check_epoch_promised :
      (req : RequestInfo) (j : Journal)
      → IsLoaded j
      → req.epoch ≡ promised_epoch j
      → check_epoch req j ≡ (done tt, j)
  unfolding check_epoch get_promised get ◌>>=◌
  check_epoch_promised req j l e = ground arith

  abbrev counted : RequestInfo → Journal → Journal
  counted req j = record j { current_epoch_ipc_serial = req.ipc_serial_number }

  check_serial_above :
      (req : RequestInfo) (j : Journal)
      → j.current_epoch_ipc_serial <ℤ req.ipc_serial_number
      → check_serial req j ≡ (done tt, counted req j)
  unfolding check_serial ◌>>=◌
  check_serial_above req j h = ground arith

  -- The committed txid of a request is not below the one that the journal knows.
  abbrev pub CommittedKnown : RequestInfo → Journal → Type 0
  CommittedKnown req j =
      (j.committed_txn_id.opened ≡ true) × (j.committed_txn_id.value ≤ℤ req.committed_txid)

  check_committed_known :
      (req : RequestInfo) (j : Journal) → CommittedKnown req j → (check_committed req j).0 ≡ done tt
  unfolding check_committed get_committed set_committed BestEffort.get BestEffort.set
      BestEffort.lazy_open ◌>>=◌
  check_committed_known req j (o, h) = ground arith

  check_request_run :
      (req : RequestInfo) (j : Journal)
      → IsLoaded j
      → req.epoch ≡ promised_epoch j
      → j.current_epoch_ipc_serial <ℤ req.ipc_serial_number
      → check_request req j ≡ check_committed req (counted req j)
  unfolding check_request
  check_request_run req j l e s =
      >>=-of_done (check_epoch req) (λ _. check_serial req >> check_committed req) j j tt
        (check_epoch_promised req j l e)
      ∙ >>=-of_done (check_serial req) (λ _. check_committed req) j (counted req j) tt
          (check_serial_above req j s)

  formatted : (j : Journal) → is_formatted j.storage ≡ true → check_formatted j ≡ (done tt, j)
  unfolding check_formatted
  formatted j f = rw f refl

  -- What the committed txid has nothing to do with.
  abbrev Steady : Journal → Journal → Type 0
  Steady j k =
      (k.last_writer_epoch ≡ j.last_writer_epoch)
      × (k.cur_segment ≡ j.cur_segment)
      × (k.cur_segment_txid ≡ j.cur_segment_txid)
      × (k.next_txid ≡ j.next_txid)

  check_committed-Steady :
      (req : RequestInfo) (j : Journal)
      → CommittedKnown req j
      → Steady j (check_committed req j).1
        × ((check_committed req j).1.committed_txn_id.opened ≡ true)
  unfolding check_committed get_committed set_committed BestEffort.get BestEffort.set
      BestEffort.lazy_open ◌>>=◌
  check_committed-Steady req j (o, h) = ground arith

  check_writer_known :
      (req : RequestInfo) (j : Journal)
      → j.last_writer_epoch.loaded ≡ true
      → j.last_writer_epoch.value ≡ req.epoch
      → (get_writer >>= λ lwe. stop_if (not (eqb_ℤ req.epoch lwe)) error) j ≡ (done tt, j)
  unfolding get_writer get ◌>>=◌
  check_writer_known req j l e = ground (arith, eqb_ℤ_refl req.epoch)

  write_batch_ready :
      (segment first num : ℤ) (records : Bytes) (s : OutputStream) (j : Journal)
      → j.committed_txn_id.opened ≡ true
      → j.cur_segment ≡ some s
      → j.cur_segment_txid ≡ segment
      → j.next_txid ≡ first
      → is_long (first +ℤ num) ≡ true
      → is_long (first +ℤ num -ℤ pos 1) ≡ true
      → (Output.flush (Output.write_raw records s) j.disk).0 ≡ true
      → (write_batch segment first num records j).0 ≡ done tt
  unfolding write_batch write_records advance long_sum get_committed BestEffort.get
      BestEffort.lazy_open ◌>>=◌
  write_batch_ready segment first num records s j opened is here next fits last_fits w =
      let next_fits : is_long (first +ℤ num -ℤ pos 1 +ℤ pos 1) ≡ true =
        rw (next_of_last first num) fits in
      ground (arith, eqb_ℤ_refl segment, eqb_ℤ_refl first, next_fits)

  check_write_request_ready :
      (req : RequestInfo) (j : Journal)
      → IsLoaded j
      → req.epoch ≡ promised_epoch j
      → j.current_epoch_ipc_serial <ℤ req.ipc_serial_number
      → CommittedKnown req j
      → j.last_writer_epoch.loaded ≡ true
      → j.last_writer_epoch.value ≡ req.epoch
      → (k : Journal) × (check_write_request req j ≡ (done tt, k))
        × Steady j k
        × (k.committed_txn_id.opened ≡ true)
  unfolding check_write_request check_request
  check_write_request_ready req j l e s c wl we =
      let k = (check_committed req (counted req j)).1 in
      let ((lw, seg, txid, next), o) = check_committed-Steady req (counted req j) c in
      let rest : check_committed req (counted req j) ≡ (done tt, k) =
        ap (λ r. (r, k)) (check_committed_known req (counted req j) c) in
      let e1 =
        >>=-of_done (check_request req)
          (λ _. get_writer >>= λ lwe. stop_if (not (eqb_ℤ req.epoch lwe)) error) j k tt
          (check_request_run req j l e s ∙ rest) in
      (k, e1 ∙ check_writer_known req k (rw lw wl) (rw lw we), (lw, seg, txid, next), o)

  -- In a formatted journal, a batch with the promised epoch, which is also that of the last
  -- writer, both of them loaded, a serial number above the last, and a committed txid that is not
  -- below the known one, for the current segment, which is open, and beginning at the next txid,
  -- succeeds if the stream of the segment takes the bytes, where the first txid plus the number
  -- of transactions, and the txid before that, fit a long.
  pub journal_accepts :
      (req : RequestInfo) (segment first num : ℤ) (records : Bytes) (s : OutputStream) (j : Journal)
      → is_formatted j.storage ≡ true
      → IsLoaded j
      → req.epoch ≡ promised_epoch j
      → j.current_epoch_ipc_serial <ℤ req.ipc_serial_number
      → CommittedKnown req j
      → j.last_writer_epoch.loaded ≡ true
      → j.last_writer_epoch.value ≡ req.epoch
      → j.cur_segment ≡ some s
      → j.cur_segment_txid ≡ segment
      → j.next_txid ≡ first
      → is_long (first +ℤ num) ≡ true
      → is_long (first +ℤ num -ℤ pos 1) ≡ true
      → (Output.flush (Output.write_raw records s) (check_write_request req j).1.disk).0 ≡ true
      → (journal req segment first num records j).0 ≡ done tt
  unfolding journal
  journal_accepts req segment first num records s j f l e above c wl we is here next fits last_fits
        w =
      let (k, ok, (_, seg, txid, nx), o) = check_write_request_ready req j l e above c wl we in
      let batch = write_batch segment first num records in
      let e1 =
        >>=-of_done check_formatted (λ _. check_write_request req >>= λ _. batch) j j tt
          (formatted j f) in
      let e2 = >>=-of_done (check_write_request req) (λ _. batch) j k tt ok in
      rw (e1, e2)
        (write_batch_ready segment first num records s k o (seg ∙ is) (txid ∙ here) (nx ∙ next) fits
          last_fits (ap (λ r. (Output.flush (Output.write_raw records s) r.1.disk).0) (sym ok) ∙ w))
