-- ===== src/Tests/Formatted.antt =====
-- A journal that is formatted while it has a promise, and a writer that begins with epoch 1.
use jn_server_cc.LongFile.BestEffort.{destroy}
use jn_server_cc.EditLog.Output
use jn_server_cc.Manager.{get_log_files}
use jn_server_cc.Journal.Epochs.{abort_cur_segment}
use jn_server_cc.Journal.State.{set_promised}
use jn_server_cc.Journal.Epochs.{update_last_promised_epoch}
use jn_server_cc.LongFile.Persistent.{new_file}
use jn_server_cc.LongFile.Persistent
use jn_server_cc.Journal.State.{get_promised}
use jn_server_cc.Text.{atoi}
use jn_server_cc.Journal.State.{reading}
use jn_server_cc.Journal.Epochs.{check_formatted}
use jn_server_cc.Storage.{check_consistent_namespace}
use jn_server_cc.Text.{print_long}
use jn_server_cc.Stream
use jn_server_cc.Stream.{open_stream}
use jn_server_cc.Stream.{is_open}
use jn_server_cc.Files.{file_exists}
use jn_server_cc.Files.{try_to_acquire_lockfile}
use jn_server_cc.Files.{dir_exists}
use jn_server_cc.Storage
use jn_server_cc.Base.{◌≡◌, refl, none, pos, ℤ, ◌<ℤ◌, done, ◌>>=◌}
use jn_server_cc.Host.Memory.{memory}
use jn_server_cc.LongFile.Persistent.{read_number}
use jn_server_cc.Storage.{StorageInfo, get_version_file, properties_at}
use jn_server_cc.Journal.State.{Journal}
use jn_server_cc.Journal.Opening
use jn_server_cc.Journal.Scanning
use jn_server_cc.Journal.Scanning.{new_epoch}
use jn_server_cc.Journal.Opening.Formatted.{formatted_disk, format-new_epoch}
use jn_server_cc.Journal.Requests.Restart.{promise_file}
use jn_server_cc.Tests.Setup.{fake_ns, writing}

abbrev formatted : Journal
formatted = (Opening.format fake_ns writing).1

format_done : (Opening.format fake_ns writing).0 ≡ done tt
unfolding Opening.format ◌>>=◌ Storage.format dir_exists try_to_acquire_lockfile file_exists is_open
    open_stream Stream.close Stream.put get_version_file print_long
format_done = refl

begun : (new_epoch fake_ns (pos 1) formatted).0 ≡ done none
unfolding new_epoch Opening.format ◌>>=◌ Storage.format dir_exists try_to_acquire_lockfile
    file_exists is_open open_stream Stream.close Stream.put get_version_file print_long
    check_formatted reading check_consistent_namespace atoi Scanning.promise_epoch get_promised
    Persistent.get new_file update_last_promised_epoch set_promised Persistent.set abort_cur_segment
    Scanning.scan_storage_for_latest_edits get_log_files Output.abort destroy
begun = refl

format-new_epoch_example :
    ((i : StorageInfo) × (properties_at
          (get_version_file formatted.storage)
          (formatted_disk fake_ns writing)
        ≡ done i)
      × (fake_ns.namespace_id ≡ i.namespace_id)
      × (fake_ns.cluster_id ≡ i.cluster_id))
    × (p : ℤ) × (read_number (promise_file formatted) (pos 0) formatted.disk ≡ done p)
    × (p <ℤ pos 1)
format-new_epoch_example = format-new_epoch fake_ns fake_ns (pos 1) writing none format_done begun
