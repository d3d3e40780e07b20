-- ===== src/Journal/Requests/Restart.antt =====
-- The promise of a journal in its file: what newEpoch writes, and what is read of it later.
use jn_server_cc.Base.{
  ◌≡◌, ◌≢◌, ap, true, inl, inr, [], ◌∷◌, ◌++◌, none, some, Bytes, codes, ℤ, pos, ◌≤ℤ◌, arith, done,
  fail, error, ◌>>=◌, Option, Option-cases, >>=-eq-done, ℕ,
}
use jn_server_cc.Text.{print_long}
use jn_server_cc.Text.RoundTrip.{IsLong}
use jn_server_cc.Host.{Host}
use jn_server_cc.Host.Laws.{FilesKeep, WritesWork, SameFile}
use jn_server_cc.Stream.{open_stream, is_open, put, close}
use jn_server_cc.LongFile.Persistent.{get, set, write_number, read_number, new_file}
use jn_server_cc.LongFile.Restart.{is_empty_newline, read_number_lem}
use jn_server_cc.Storage.{StorageInfo, check_consistent_namespace}
use jn_server_cc.Journal.State.{Journal, reading, get_promised, set_promised}
use jn_server_cc.Journal.Epochs.{check_formatted, update_last_promised_epoch}
use jn_server_cc.Journal.Scanning.{promise_epoch, new_epoch}

module _ ⦃host : Host⦄ where
  -- The text that a promise is written as.
  abbrev number_text : ℤ → Bytes
  number_text v = print_long v ++ 10 ∷ []

  write_number_done :
      (p : Bytes) (v : ℤ) (d d1 d2 : host.Disk) (o : host.Handle)
      → host.open_out p d ≡ (some o, d1)
      → host.write_at o 0 (number_text v) d1 ≡ (true, d2)
      → write_number p v d ≡ (done tt, host.close_out o d2)
  unfolding write_number open_stream put close is_open
  write_number_done p v d d1 d2 o opens writes = ground (arith, is_empty_newline (print_long v))

  write_number_unopened :
      (p : Bytes) (v : ℤ) (d : host.Disk)
      → (host.open_out p d).0 ≡ none
      → (write_number p v d).0 ≢ done tt
  unfolding write_number open_stream is_open
  write_number_unopened p v d e h = ground arith

  pub read-write_number :
      (keep : FilesKeep) (works : WritesWork) (p : Bytes) (v default_val : ℤ) (d : host.Disk)
      → IsLong v
      → (write_number p v d).0 ≡ done tt
      → read_number p default_val (write_number p v d).1 ≡ done v
  read-write_number keep works p v default_val d long h =
      let d1 = (host.open_out p d).1 in
      elim (Option-cases (host.open_out p d).0) [
        | inl e ↦ absurd (write_number_unopened p v d e h)
        | inr (o, e) ↦
            let d2 = (host.write_at o 0 (number_text v) d1).1 in
            let opens : host.open_out p d ≡ (some o, d1) = ap (λ x. (x, d1)) e in
            let writes : host.write_at o 0 (number_text v) d1 ≡ (true, d2) =
              ap (λ x. (x, d2)) (works.writes p (number_text v) d d1 o opens) in
            let (content, there) = keep.write_read p (number_text v) d d1 d2 o opens writes in
            rw (write_number_done p v d d1 d2 o opens writes)
              (read_number_lem p default_val v (host.close_out o d2) long there content)
      ]

  -- A promise is written before newEpoch goes on.
  pub promise_written :
      (epoch : ℤ) (j : Journal)
      → (promise_epoch epoch j).0 ≡ done tt
      → ((write_number j.last_promised_epoch.file epoch j.disk).0 ≡ done tt)
        × ((promise_epoch epoch j).1.disk
            ≡ (write_number j.last_promised_epoch.file epoch j.disk).1)
        × ((promise_epoch epoch j).1.storage ≡ j.storage)
  unfolding promise_epoch update_last_promised_epoch get_promised set_promised get set ◌>>=◌
  promise_written epoch j h = ground arith

  -- The file of the promise, as `refreshCachedData` names it.
  abbrev pub promise_file : Journal → Bytes
  promise_file j = j.storage.current_dir ++ (codes "/" ++ codes "last-promised-epoch")

  pub promise_refused :
      (epoch v : ℤ) (j : Journal)
      → j.last_promised_epoch ≡ new_file (promise_file j) (pos 0)
      → read_number (promise_file j) (pos 0) j.disk ≡ done v
      → epoch ≤ℤ v
      → (promise_epoch epoch j).0 ≡ fail error
  unfolding promise_epoch get_promised get new_file ◌>>=◌
  promise_refused epoch v j fresh r h = ground arith

  pub new_epoch_refused :
      (ns : StorageInfo) (epoch : ℤ) (j : Journal)
      → (promise_epoch epoch j).0 ≡ fail error
      → (new_epoch ns epoch j).0 ≡ fail error
  unfolding new_epoch check_formatted reading check_consistent_namespace ◌>>=◌
  new_epoch_refused ns epoch j h = ground arith

  pub promised_first :
      (ns : StorageInfo) (epoch : ℤ) (j : Journal) (last : Option ℕ)
      → (new_epoch ns epoch j).0 ≡ done last
      → (promise_epoch epoch j).0 ≡ done tt
  unfolding new_epoch check_formatted reading
  promised_first ns epoch j last h =
      let (a, e1, h1, q1) = >>=-eq-done check_formatted _ j last h in
      let (b, e2, h2, q2) =
        >>=-eq-done (reading (λ k. check_consistent_namespace k.storage ns)) _ j last h1 in
      let (c, e3, h3, q3) = >>=-eq-done (promise_epoch epoch) _ j last h2 in e3

  pub read_number_same :
      (p : Bytes) (default_val : ℤ) (d d' : host.Disk)
      → SameFile p d d'
      → read_number p default_val d ≡ read_number p default_val d'
  unfolding read_number
  read_number_same p default_val d d' (c, r) = ground arith
