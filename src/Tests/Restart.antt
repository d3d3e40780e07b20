-- ===== src/Tests/Restart.antt =====
-- A journal that is opened again after it has promised an epoch.
use jn_server_cc.Base.{
  ◌≡◌, refl, true, ◌∷◌, none, Bytes, codes, pos, arith, done, fail, error, ◌>>=◌,
}
use jn_server_cc.Host.Memory.{memory, Files}
use jn_server_cc.Text.{print_long}
use jn_server_cc.Host.Laws.{SameFile}
use jn_server_cc.Stream
use jn_server_cc.Stream.{is_open, open_stream}
use jn_server_cc.LongFile.Persistent
use jn_server_cc.Journal.Epochs.{update_last_promised_epoch}
use jn_server_cc.Journal.Requests.Restart.{promise_file}
use jn_server_cc.LongFile.BestEffort
use jn_server_cc.LongFile.BestEffort.{destroy}
use jn_server_cc.Files.{dir_exists, try_to_acquire_lockfile, file_exists}
use jn_server_cc.Storage.{
  is_formatted, get_version_file, properties_at, properties_text, new_storage, fresh_storage,
}
use jn_server_cc.Manager.{get_log_files}
use jn_server_cc.Journal.State.{reading, get_promised, set_promised}
use jn_server_cc.Journal.Scanning.{promise_epoch, new_epoch, scan_storage_for_latest_edits}
use jn_server_cc.Journal.Opening.{new_journal, get_last_promised_epoch}
use jn_server_cc.Journal.Opening.Opened.{IsThere}
use jn_server_cc.Journal.Opening.Restarted.{new_epoch-reopened}
use jn_server_cc.Tests.Files.{memory-FilesKeep, memory-WritesWork}
use jn_server_cc.Tests.Setup.{fake_ns}
use jn_server_cc.Tests.Requests.{empty, epoch_started}

abbrev dir : Bytes
dir = codes "/jn"

-- The files after the promise, with the VERSION file.
abbrev later : Files
later =
    (codes "/jn/current/VERSION", properties_text fake_ns) ∷ (promise_epoch (pos 4) empty).1.disk

made : (new_journal dir later).0 ≡ done tt
unfolding new_journal ◌>>=◌ new_storage dir_exists try_to_acquire_lockfile file_exists
    get_version_file scan_storage_for_latest_edits reading get_log_files destroy is_open
    BestEffort.new_file properties_text print_long promise_epoch get_promised Persistent.get
    update_last_promised_epoch set_promised Persistent.set open_stream Stream.close Stream.put
made = refl

there : IsThere (fresh_storage dir) later (new_storage dir later).2
unfolding new_journal ◌>>=◌ new_storage dir_exists try_to_acquire_lockfile file_exists
    get_version_file scan_storage_for_latest_edits reading get_log_files destroy is_open
    BestEffort.new_file properties_text print_long promise_epoch get_promised Persistent.get
    update_last_promised_epoch set_promised Persistent.set open_stream Stream.close Stream.put
there = (refl, refl)

same_promise :
    SameFile
      (promise_file empty)
      (new_journal dir later).1.disk
      (promise_epoch (pos 4) empty).1.disk
unfolding new_journal ◌>>=◌ new_storage dir_exists try_to_acquire_lockfile file_exists
    get_version_file scan_storage_for_latest_edits reading get_log_files destroy is_open
    BestEffort.new_file properties_text print_long promise_epoch get_promised Persistent.get
    update_last_promised_epoch set_promised Persistent.set open_stream Stream.close Stream.put
same_promise = (refl, refl)

new_epoch-reopened_example :
    (is_formatted (new_journal dir later).1.storage ≡ true)
    × (properties_at (get_version_file (new_journal dir later).1.storage) (new_storage dir later).2
        ≡ done (new_journal dir later).1.storage.info)
    × ((get_last_promised_epoch (new_journal dir later).1).0 ≡ done (pos 4))
    × ((new_epoch fake_ns (pos 4) (new_journal dir later).1).0 ≡ fail error)
new_epoch-reopened_example =
    new_epoch-reopened memory-FilesKeep memory-WritesWork fake_ns fake_ns (pos 4) (pos 4) none empty
      dir later (omega arith) refl refl epoch_started made there same_promise (omega arith)
