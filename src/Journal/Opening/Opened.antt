-- ===== src/Journal/Opening/Opened.antt =====
-- What the constructor of class Journal leaves: the directories, whether the journal is formatted,
-- and that its promise is not read yet.
use jn_server_cc.Base.{
  List, [], ◌∷◌, true, >>=-eq-done, ◌≡◌, refl, Bytes, pos, arith, Outcome, done, fail, modify, pure,
  if◌then◌else◌, ◌>>=◌, ◌∙◌,
}
use jn_server_cc.Base.Moves.{Moves, IsPreorder, moves_rules}
use jn_server_cc.Host.{Host}
use jn_server_cc.Files.{dir_exists, file_exists}
use jn_server_cc.EditLog.File.{EditLogFile, is_initialized}
use jn_server_cc.LongFile.Persistent.{new_file}
use jn_server_cc.Storage.{
  JnStorage, is_formatted, get_version_file, acquire_lock, read_properties,
  analyze_storage_directory, analyze_storage, new_storage, fresh_storage,
}
use jn_server_cc.Storage.Analysed.{HasVersion, analyze-HasVersion, read_where_formatted}
use jn_server_cc.Journal.State.{Journal, Call, reading}
use jn_server_cc.Journal.Epochs.Promise.{SameEpoch, same_epoch_rules}
use jn_server_cc.Journal.Scanning.{
  scan_log, move_aside_empty, latest_or, latest_of, scan_storage_for_latest_edits,
}
use jn_server_cc.Journal.Requests.Steady.{scan_storage-SameEpoch}
use jn_server_cc.Journal.Requests.Restart.{promise_file}
use jn_server_cc.Journal.Opening.{
  refresh_cached_data, fresh_journal, recover_highest, opened, new_journal,
}

module _ ⦃host : Host⦄ where
  abbrev SameStorage : Journal → Journal → Type 0
  SameStorage j k = k.storage ≡ j.storage

  SameStorage-preorder : IsPreorder SameStorage
  SameStorage-preorder = record { same = λ j. refl; chain = λ j k l p q. q ∙ p }

  reading-SameStorage : {A : Type 0} (f : Journal → Outcome A) → Moves SameStorage (reading f)
  unfolding reading
  reading-SameStorage f = record { at = λ j. refl }

  modify-SameStorage :
      (f : Journal → Journal)
      → ((j : Journal) → (f j).storage ≡ j.storage)
      → Moves SameStorage (modify f)
  unfolding ◌>>=◌
  modify-SameStorage f h = record { at = h }

  scan_log-SameStorage : (l : EditLogFile) → Moves SameStorage (scan_log l)
  unfolding scan_log
  scan_log-SameStorage l = record { at = λ j. ground arith }

  move_aside-SameStorage : (l : EditLogFile) → Moves SameStorage (move_aside_empty l)
  unfolding move_aside_empty
  move_aside-SameStorage l = record { at = λ j. refl }

  ruleset same_storage_rules = (
    moves_rules, SameStorage-preorder, reading-SameStorage, scan_log-SameStorage,
    move_aside-SameStorage,
  )

  latest_or-SameStorage :
      (l : EditLogFile) (rest : Call EditLogFile)
      → Moves SameStorage rest
      → Moves SameStorage (latest_or l rest)
  unfolding latest_or
  latest_or-SameStorage l rest h = search same_storage_rules depth 8

  latest_of-SameStorage : (ls : List EditLogFile) → Moves SameStorage (latest_of ls)
  unfolding latest_of
  latest_of-SameStorage [] = search same_storage_rules
  latest_of-SameStorage (l ∷ ls) = latest_or-SameStorage l (latest_of ls) (latest_of-SameStorage ls)

  scan_storage-SameStorage : Moves SameStorage scan_storage_for_latest_edits
  unfolding scan_storage_for_latest_edits
  scan_storage-SameStorage = search (same_storage_rules, latest_of-SameStorage) depth 8

  -- The constructor behind `refreshCachedData`.
  abbrev highest_found : Call (Unit {0})
  highest_found = do
    latest ← scan_storage_for_latest_edits
    if is_initialized latest
        then modify (λ j. record j { highest_written_txid = latest.last_txid })
        else pure tt

  raise-SameStorage :
      (l : EditLogFile)
      → Moves SameStorage (modify (λ j. record j { highest_written_txid = l.last_txid }))
  raise-SameStorage l = modify-SameStorage _ (λ j. refl)

  raise-SameEpoch :
      (l : EditLogFile)
      → Moves SameEpoch (modify (λ j. record j { highest_written_txid = l.last_txid }))
  unfolding ◌>>=◌
  raise-SameEpoch l = record { at = λ j. record { promise = refl; serial = refl } }

  highest_found-SameStorage : Moves SameStorage highest_found
  highest_found-SameStorage =
      search (same_storage_rules, scan_storage-SameStorage, raise-SameStorage)

  highest_found-SameEpoch : Moves SameEpoch highest_found
  highest_found-SameEpoch = search (same_epoch_rules, scan_storage-SameEpoch, raise-SameEpoch)

  -- The promise is still in its file.
  abbrev pub HasUnread : Journal → Type 0
  HasUnread j = j.last_promised_epoch ≡ new_file (promise_file j) (pos 0)

  recover_highest-HasUnread :
      (j : Journal) → ((recover_highest j).1.storage ≡ j.storage) × HasUnread (recover_highest j).1
  unfolding recover_highest refresh_cached_data ◌>>=◌
  recover_highest-HasUnread j =
      let j1 = (refresh_cached_data j).1 in
      let s = highest_found-SameStorage.at j1 in
      let e = highest_found-SameEpoch.at j1 in (s, rw s e.promise)

  opened_done :
      (r : Outcome (Unit {0})) (s : JnStorage) (d : host.Disk)
      → (opened (r, s, d)).0 ≡ done tt
      → (r ≡ done tt) × ((opened (r, s, d)).1.storage ≡ s) × HasUnread (opened (r, s, d)).1
  opened_done (done tt) s d h =
      let (kept, unread) = recover_highest-HasUnread (fresh_journal s d) in (refl, kept, unread)
  opened_done (fail x) s d h = absurd (cc h)

  -- The directory of a storage is there, and behind the analysis the VERSION file is.
  abbrev pub IsThere : JnStorage → host.Disk → host.Disk → Type 0
  IsThere s d d' =
      (dir_exists s.log_dir d ≡ done true) × (file_exists (get_version_file s) d' ≡ done true)

  abbrev Analysed : JnStorage → host.Disk → JnStorage × host.Disk → Type 0
  Analysed s d (s', d') =
      (s'.current_dir ≡ s.current_dir) × (IsThere s d d' → is_formatted s' ≡ true)

  analyze_storage_directory_done :
      (s : JnStorage) (d : host.Disk)
      → (analyze_storage_directory (s, d)).0 ≡ done tt
      → Analysed s d (analyze_storage_directory (s, d)).1
  unfolding analyze_storage_directory acquire_lock is_formatted get_version_file ◌>>=◌
  analyze_storage_directory_done s d h = (ground arith, λ t. ground arith)

  read_where_formatted_kept :
      (s : JnStorage) (d : host.Disk)
      → ((read_where_formatted s (s, d)).1.0.current_dir ≡ s.current_dir)
        × (is_formatted (read_where_formatted s (s, d)).1.0 ≡ is_formatted s)
        × ((read_where_formatted s (s, d)).1.1 ≡ d)
  unfolding read_properties is_formatted ◌>>=◌
  read_where_formatted_kept s d = ground arith

  analyze_storage_done :
      (s : JnStorage) (d : host.Disk)
      → (analyze_storage (s, d)).0 ≡ done tt
      → Analysed s d (analyze_storage (s, d)).1
  unfolding analyze_storage ◌>>=◌
  analyze_storage_done s d h =
      let (a, e, h1, q) = >>=-eq-done analyze_storage_directory _ (s, d) tt h in
      let y = (analyze_storage_directory (s, d)).1 in
      let (dir, formatted) = analyze_storage_directory_done s d e in
      let (dir', formatted', disk') = read_where_formatted_kept y.0 y.1 in
      rw (q, dir', formatted', disk') (dir, formatted)

  -- What a new journal is over files: its storage is the analyzed one of the directory.
  pub record IsOpened (log_dir : Bytes) (d : host.Disk) (k : Journal) : Type 0 where
    pub dir : k.storage.current_dir ≡ (fresh_storage log_dir).current_dir
    pub unread : HasUnread k
    pub version : HasVersion (k.storage, (new_storage log_dir d).2)
    pub formatted :
        IsThere (fresh_storage log_dir) d (new_storage log_dir d).2 → is_formatted k.storage ≡ true

  pub new_journal-IsOpened :
      (log_dir : Bytes) (d : host.Disk)
      → (new_journal log_dir d).0 ≡ done tt
      → IsOpened log_dir d (new_journal log_dir d).1
  unfolding new_journal new_storage
  new_journal-IsOpened log_dir d h =
      let s = fresh_storage log_dir in
      let (r, x) = analyze_storage (s, d) in
      let (ok, kept, unread) = opened_done r x.0 x.1 h in
      let (dir, formatted) = analyze_storage_done s d ok in
      record {
        dir = rw kept dir;
        unread = unread;
        version = rw kept (analyze-HasVersion.at (s, d) tt ok);
        formatted = rw kept formatted;
      }
