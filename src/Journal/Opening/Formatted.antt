-- ===== src/Journal/Opening/Formatted.antt =====
-- `newEpoch` of a journal that has been formatted.
use jn_server_cc.Base.{
  Bool, Stop, abort, stop_if, eqb_ℤ, ◌≡◌, refl, true, inl, inr, Option, eq_of_bytes_eq, ℤ, ℕ, pos,
  eq_of_eqb_ℤ, ◌<ℤ◌, arith, Outcome-cases, done, ◌>>=◌, >>=-eq-done,
}
use jn_server_cc.Host.{Host}
use jn_server_cc.LongFile.Persistent.{new_file, read_number, get}
use jn_server_cc.Storage
use jn_server_cc.Storage.{
  StorageInfo, is_formatted, get_version_file, properties_at, check_consistent_namespace,
}
use jn_server_cc.Storage.Analysed.{HasVersion, format-HasVersion}
use jn_server_cc.Journal.State.{Journal, reading, get_promised}
use jn_server_cc.Journal.Epochs.{check_formatted}
use jn_server_cc.Journal.Scanning.{promise_epoch, new_epoch}
use jn_server_cc.Journal.Opening.{format, format_storage, refresh_cached_data}
use jn_server_cc.Journal.Requests.Restart.{promise_file, promised_first}

module _ ⦃host : Host⦄ where
  stop_if_kept : (b : Bool) (x : Stop) (j : Journal) → (stop_if {S = Journal} b x j).1 ≡ j
  unfolding ◌>>=◌
  stop_if_kept b x j = refl

  -- The files as format leaves the directory, in front of the last step, which closes the file of
  -- the committed txid.
  abbrev pub formatted_disk : StorageInfo → Journal → host.Disk
  formatted_disk ns j = (Storage.format ns (j.storage, j.disk)).1.1

  -- The journal has the information of its VERSION file, and has not read its promise.
  abbrev Formatted : host.Disk → Journal → Type 0
  Formatted d j =
      HasVersion (j.storage, d) × (j.last_promised_epoch ≡ new_file (promise_file j) (pos 0))

  refreshed :
      (ns : StorageInfo) (j : Journal)
      → ((format_storage ns >>= λ _. refresh_cached_data) j).0 ≡ done tt
      → Formatted (formatted_disk ns j) ((format_storage ns >>= λ _. refresh_cached_data) j).1
  unfolding refresh_cached_data ◌>>=◌
  refreshed ns j h =
      let (a, e, h1, q) = >>=-eq-done (format_storage ns) (λ _. refresh_cached_data) j tt h in
      rw q ((format-HasVersion ns).at (j.storage, j.disk) a e, refl)

  format-Formatted :
      (ns : StorageInfo) (j : Journal)
      → (format ns j).0 ≡ done tt
      → Formatted (formatted_disk ns j) (format ns j).1
  unfolding format
  format-Formatted ns j h =
      let b = eqb_ℤ ns.namespace_id (pos 0) in
      let rest = format_storage ns >>= λ _. refresh_cached_data in
      let (a, e, h1, q) = >>=-eq-done (stop_if b abort) (λ _. rest) j tt h in
      let kept = stop_if_kept b abort j in rw (q, kept) (refreshed ns j (rw kept at h1))

  same_namespace :
      (s : Storage.JnStorage) (ns : StorageInfo) (u : Unit {0})
      → check_consistent_namespace s ns ≡ done u
      → (ns.namespace_id ≡ s.info.namespace_id) × (ns.cluster_id ≡ s.info.cluster_id)
  unfolding check_consistent_namespace
  same_namespace s ns u h = ground (
    arith,
    eq_of_eqb_ℤ ns.namespace_id s.info.namespace_id,
    eq_of_bytes_eq ns.cluster_id s.info.cluster_id,
  )

  promised_above :
      (epoch : ℤ) (j : Journal)
      → j.last_promised_epoch ≡ new_file (promise_file j) (pos 0)
      → (promise_epoch epoch j).0 ≡ done tt
      → (p : ℤ) × (read_number (promise_file j) (pos 0) j.disk ≡ done p) × (p <ℤ epoch)
  unfolding promise_epoch get_promised get new_file ◌>>=◌
  promised_above epoch j fresh h =
      elim (Outcome-cases (read_number (promise_file j) (pos 0) j.disk)) [
        | inl (p, e) ↦ (p, e, ground arith)
        | inr (x, e) ↦ ground arith
      ]

  checked :
      (ns : StorageInfo) (epoch : ℤ) (j : Journal) (last : Option ℕ)
      → (new_epoch ns epoch j).0 ≡ done last
      → (is_formatted j.storage ≡ true)
        × (ns.namespace_id ≡ j.storage.info.namespace_id)
        × (ns.cluster_id ≡ j.storage.info.cluster_id)
  unfolding new_epoch check_formatted reading
  checked ns epoch j last h =
      let (a, e1, h1, q1) = >>=-eq-done check_formatted _ j last h in
      let (b, e2, h2, q2) =
        >>=-eq-done (reading (λ k. check_consistent_namespace k.storage ns)) _ j last h1 in
      let (id, cluster) = same_namespace j.storage ns b e2 in (ground arith, id, cluster)

  -- Where newEpoch succeeds in a journal behind a format that succeeds, the namespace id and the
  -- cluster id that it names are those that the VERSION file holds as the format leaves the
  -- directory, and its epoch is above the promise that the file of the promise holds behind the
  -- format, or above 0 where that file is not there: nothing is left of what the journal had
  -- promised in memory.
  pub format-new_epoch :
      (ns ns' : StorageInfo) (epoch : ℤ) (j : Journal) (last : Option ℕ)
      → (format ns j).0 ≡ done tt
      → (new_epoch ns' epoch (format ns j).1).0 ≡ done last
      → ((i : StorageInfo) × (properties_at
              (get_version_file (format ns j).1.storage)
              (formatted_disk ns j)
            ≡ done i)
          × (ns'.namespace_id ≡ i.namespace_id)
          × (ns'.cluster_id ≡ i.cluster_id))
        × (p : ℤ) × (read_number (promise_file (format ns j).1) (pos 0) (format ns j).1.disk
            ≡ done p)
        × (p <ℤ epoch)
  format-new_epoch ns ns' epoch j last f h =
      let j1 = (format ns j).1 in
      let (version, fresh) = format-Formatted ns j f in
      let (formatted, id, cluster) = checked ns' epoch j1 last h in
      let (p, there, above) = promised_above epoch j1 fresh (promised_first ns' epoch j1 last h) in
      ((j1.storage.info, version formatted, id, cluster), p, there, above)
