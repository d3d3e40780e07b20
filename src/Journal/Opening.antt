-- ===== src/Journal/Opening.antt =====
-- The constructor of class Journal, `refreshCachedData`, `format`, `close`, and the getters.
pub mod Formatted
pub mod Opened
pub mod Restarted
use jn_server_cc.Base.{
  Bool, [], ◌++◌, none, Bytes, codes, if◌then◌else◌, ℤ, pos, negsuc, eqb_ℤ, Outcome, done, fail,
  abort, pure, stop_if, modify, ◌>>=◌, ◌>>◌,
}
use jn_server_cc.Host.{Host}
use jn_server_cc.EditLog.Transaction.{invalid_txid}
use jn_server_cc.EditLog.File.{is_initialized}
use jn_server_cc.LongFile.Persistent
use jn_server_cc.LongFile.BestEffort
use jn_server_cc.Storage
use jn_server_cc.Storage.{JnStorage, StorageInfo, is_formatted, unlock, new_storage}
use jn_server_cc.Journal.State.{Journal, Call, get_promised, get_writer}
use jn_server_cc.Journal.Scanning.{scan_storage_for_latest_edits}

module _ ⦃host : Host⦄ where
  -- `refreshCachedData`: new objects over the three files, in place of the old ones, one of which
  -- has a stream to close.
  unfoldable pub refresh_cached_data : Call (Unit {0})
  refresh_cached_data = modify (λ j. record j {
    last_promised_epoch =
        Persistent.new_file (j.storage.current_dir ++ (codes "/" ++ codes "last-promised-epoch"))
          (pos 0);
    last_writer_epoch =
        Persistent.new_file (j.storage.current_dir ++ (codes "/" ++ codes "last-writer-epoch"))
          (pos 0);
    committed_txn_id =
        BestEffort.new_file (j.storage.current_dir ++ (codes "/" ++ codes "committed-txid"))
          invalid_txid;
    disk = BestEffort.destroy j.committed_txn_id j.disk;
  })

  abbrev pub format_storage : StorageInfo → Call (Unit {0})
  format_storage ns j =
      let (r, x) = Storage.format ns (j.storage, j.disk) in
      (r, record j { storage = x.0; disk = x.1 })

  -- `format`; the segment that is being written stays open.
  unfoldable pub format : StorageInfo → Call (Unit {0})
  unfolding refresh_cached_data
  format ns = do
    stop_if (eqb_ℤ ns.namespace_id (pos 0)) abort
    format_storage ns
    refresh_cached_data

  -- `getLastPromisedEpoch`, `getLastWriterEpoch` and `isFormatted`; the getters only log that a
  -- journal is not formatted.
  unfoldable pub get_last_promised_epoch : Call ℤ
  get_last_promised_epoch = get_promised

  unfoldable pub get_last_writer_epoch : Call ℤ
  get_last_writer_epoch = get_writer

  unfoldable pub is_formatted_call : Call Bool
  is_formatted_call j = (done (is_formatted j.storage), j)

  -- `close` gives the lock back.
  unfoldable pub close : Call (Unit {0})
  close j =
      let (_, x) = unlock (j.storage, j.disk) in (done tt, record j { storage = x.0; disk = x.1 })

  -- The fields as the initializers leave them; the cached files are set by `refreshCachedData`.
  abbrev pub fresh_journal : JnStorage → host.Disk → Journal
  fresh_journal s d = record {
    cur_segment = none;
    cur_segment_txid = invalid_txid;
    next_txid = invalid_txid;
    highest_written_txid = pos 0;
    current_epoch_ipc_serial = negsuc 0;
    storage = s;
    last_promised_epoch = Persistent.new_file [] (negsuc 0);
    last_writer_epoch = Persistent.new_file [] (negsuc 0);
    committed_txn_id = BestEffort.new_file [] (negsuc 0);
    fjm = record { current_in_progress = [] };
    disk = d;
  }

  unfoldable pub recover_highest : Call (Unit {0})
  unfolding refresh_cached_data
  recover_highest = do
    refresh_cached_data
    latest ← scan_storage_for_latest_edits
    if is_initialized latest
        then modify (λ j. record j { highest_written_txid = latest.last_txid })
        else pure tt

  abbrev pub opened : Outcome (Unit {0}) × JnStorage × host.Disk → Outcome (Unit {0}) × Journal
  opened (done _, s, d) = recover_highest (fresh_journal s d)
  opened (fail e, s, d) = (fail e, fresh_journal s d)

  -- The constructor; the journal is initialized where the outcome is `done`.
  unfoldable pub new_journal : Bytes → host.Disk → Outcome (Unit {0}) × Journal
  unfolding recover_highest
  new_journal log_dir d = opened (new_storage log_dir d)
