-- ===== src/Journal/Opening/Restarted.antt =====
-- A journal that is made over the files of one that has promised an epoch, as when the server is
-- started again.
use jn_server_cc.Base.{
  ◌≡◌, refl, ◌∙◌, true, Bytes, Option, ℕ, ℤ, pos, ◌≤ℤ◌, arith, done, fail, error,
}
use jn_server_cc.Text.RoundTrip.{IsLong}
use jn_server_cc.Host.{Host}
use jn_server_cc.Host.Laws.{FilesKeep, WritesWork, SameFile}
use jn_server_cc.LongFile.Persistent.{get, read_number, new_file}
use jn_server_cc.Storage.{
  StorageInfo, is_formatted, get_version_file, properties_at, new_storage, fresh_storage,
}
use jn_server_cc.Journal.State.{Journal, get_promised}
use jn_server_cc.Journal.Scanning.{promise_epoch, new_epoch}
use jn_server_cc.Journal.Requests.Restart.{
  promise_file, promise_written, promised_first, read-write_number, read_number_same,
  promise_refused, new_epoch_refused,
}
use jn_server_cc.Journal.Opening.{new_journal, get_last_promised_epoch}
use jn_server_cc.Journal.Opening.Opened.{HasUnread, IsThere, new_journal-IsOpened}

module _ ⦃host : Host⦄ where
  -- The promise that a journal reports when it has not read its file yet.
  reported :
      (v : ℤ) (j : Journal)
      → HasUnread j
      → read_number (promise_file j) (pos 0) j.disk ≡ done v
      → (get_last_promised_epoch j).0 ≡ done v
  unfolding get_last_promised_epoch get_promised get new_file
  reported v j unread r = ground arith

  -- The file of a promise that newEpoch has kept gives it back.
  kept_promise :
      (keep : FilesKeep) (works : WritesWork) (ns : StorageInfo) (epoch : ℤ) (last : Option ℕ)
      (j : Journal) (d : host.Disk)
      → IsLong epoch
      → j.last_promised_epoch.file ≡ promise_file j
      → (new_epoch ns epoch j).0 ≡ done last
      → SameFile (promise_file j) d (promise_epoch epoch j).1.disk
      → read_number (promise_file j) (pos 0) d ≡ done epoch
  kept_promise keep works ns epoch last j d long path h same =
      let (written, disk, _) = promise_written epoch j (promised_first ns epoch j last h) in
      let value =
        read-write_number keep works (promise_file j) epoch (pos 0) j.disk long
          (rw (← path) written) in
      read_number_same (promise_file j) (pos 0) d (promise_epoch epoch j).1.disk same
      ∙ rw (disk, path) value

  -- Once newEpoch has succeeded with an epoch, which is a long, a journal that is made by its
  -- constructor over the same directory, which is there with its VERSION file, is formatted and
  -- has the information of the VERSION file, reports that epoch as its promise, and refuses
  -- newEpoch with that epoch or an older one with an error: where the file of the promise is,
  -- behind the constructor, as the promise left it, the first journal keeps its promise in that
  -- file, files keep what is written, and a file that has been opened can be written.
  pub new_epoch-reopened :
      (keep : FilesKeep) (works : WritesWork) (ns ns' : StorageInfo) (old new : ℤ) (last : Option ℕ)
      (j : Journal) (log_dir : Bytes) (d : host.Disk)
      → IsLong old
      → j.last_promised_epoch.file ≡ promise_file j
      → j.storage.current_dir ≡ (fresh_storage log_dir).current_dir
      → (new_epoch ns old j).0 ≡ done last
      → (new_journal log_dir d).0 ≡ done tt
      → IsThere (fresh_storage log_dir) d (new_storage log_dir d).2
      → SameFile (promise_file j) (new_journal log_dir d).1.disk (promise_epoch old j).1.disk
      → new ≤ℤ old
      → (is_formatted (new_journal log_dir d).1.storage ≡ true)
        × (properties_at
              (get_version_file (new_journal log_dir d).1.storage)
              (new_storage log_dir d).2
            ≡ done (new_journal log_dir d).1.storage.info)
        × ((get_last_promised_epoch (new_journal log_dir d).1).0 ≡ done old)
        × ((new_epoch ns' new (new_journal log_dir d).1).0 ≡ fail error)
  new_epoch-reopened keep works ns ns' old new last j log_dir d long path dir h made there same
        below =
      let k = (new_journal log_dir d).1 in
      let o = new_journal-IsOpened log_dir d made in
      let formatted = o.formatted there in
      let same_path : promise_file k ≡ promise_file j = rw (o.dir, dir) refl in
      let value : read_number (promise_file k) (pos 0) k.disk ≡ done old =
        rw same_path (kept_promise keep works ns old last j k.disk long path h same) in
      (
        formatted,
        o.version formatted,
        reported old k o.unread value,
        new_epoch_refused ns' new k (promise_refused new old k o.unread value below),
      )
