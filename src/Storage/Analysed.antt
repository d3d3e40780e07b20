-- ===== src/Storage/Analysed.antt =====
-- What a storage knows of itself once it has been analyzed or formatted.
use jn_server_cc.Base.{
  ◌≡◌, refl, true, inl, inr, if◌then◌else◌, Bool-cases, Outcome-cases, done, pure, ◌>>=◌,
  >>=-eq-done,
}
use jn_server_cc.Base.Leaves.{Leaves, Leaves->>=}
use jn_server_cc.Host.{Host}
use jn_server_cc.Storage.{
  JnStorage, StorageInfo, Stored, is_formatted, get_version_file, properties_at, read_properties,
  analyze_storage_directory, analyze_storage, format,
}

module _ ⦃host : Host⦄ where
  -- A formatted storage has the information of its VERSION file.
  abbrev pub HasVersion : JnStorage × host.Disk → Type 0
  HasVersion (s, d) = is_formatted s ≡ true → properties_at (get_version_file s) d ≡ done s.info

  read_version :
      (s : JnStorage) (d : host.Disk) (u : Unit {0})
      → (read_properties (get_version_file s) (s, d)).0 ≡ done u
      → (i : StorageInfo) × (properties_at (get_version_file s) d ≡ done i)
        × (read_properties (get_version_file s) (s, d) ≡ (done tt, (record s { info = i }, d)))
  unfolding read_properties ◌>>=◌
  read_version s d u h = elim (Outcome-cases (properties_at (get_version_file s) d)) [
    | inl (i, e) ↦ (i, e, rw (read_properties, e) refl)
    | inr (x, e) ↦ absurd (cc (rw (read_properties, e) at h))
  ]

  abbrev pub read_where_formatted : JnStorage → Stored (Unit {0})
  read_where_formatted s = if is_formatted s then read_properties (get_version_file s) else pure tt

  read-HasVersion :
      (s : JnStorage) (d : host.Disk) (u : Unit {0})
      → (read_where_formatted s (s, d)).0 ≡ done u
      → HasVersion (read_where_formatted s (s, d)).1
  unfolding is_formatted get_version_file ◌>>=◌
  read-HasVersion s d u h = elim (Bool-cases (is_formatted s)) [
    | inl e ↦ let (i, there, q) = read_version s d u (rw e at h) in rw e (rw q (λ f. there))
    | inr e ↦ rw e (λ f. absurd (cc (rw e at f)))
  ]

  -- An analysis that succeeds has read the VERSION file of a formatted storage.
  pub analyze-HasVersion : Leaves HasVersion analyze_storage
  unfolding analyze_storage ◌>>=◌
  analyze-HasVersion = record {
    at = λ x u h.
        let (a, e, h1, q) = >>=-eq-done analyze_storage_directory _ x u h in
        let y = (analyze_storage_directory x).1 in rw q (read-HasVersion y.0 y.1 u h1);
  }

  pub format-HasVersion : (ns : StorageInfo) → Leaves HasVersion (format ns)
  unfolding format
  format-HasVersion ns = search (Leaves->>=, analyze-HasVersion) depth 12
