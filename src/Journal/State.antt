-- ===== src/Journal/State.antt =====
-- The fields of class Journal, and how a call of one of its parts is a step of the journal.
use jn_server_cc.Base.{
  Bool, not, Option, Bytes, if◌then◌else◌, ℤ, eqb_ℤ, Outcome, Action, done, fail, error,
}
use jn_server_cc.Host.{Host}
use jn_server_cc.LongFile.Persistent
use jn_server_cc.LongFile.Persistent.{PersistentLongFile}
use jn_server_cc.LongFile.BestEffort
use jn_server_cc.LongFile.BestEffort.{BestEffortLongFile}
use jn_server_cc.Storage.{JnStorage}
use jn_server_cc.Manager.{FileJournalManager}
use jn_server_cc.EditLog.Output.{OutputStream}
use jn_server_cc.EditLog.Transaction.{invalid_txid}

-- util/RequestInfo.h
pub record RequestInfo : Type 0 where
  pub jid : Bytes
  pub epoch : ℤ
  pub ipc_serial_number : ℤ
  pub committed_txid : ℤ

abbrev pub has_committed_txid : RequestInfo → Bool
has_committed_txid r = not (eqb_ℤ r.committed_txid invalid_txid)

module _ ⦃host : Host⦄ where
  -- After construction no pointer but `curSegment` is null.
  pub record Journal : Type 0 where
    pub cur_segment : Option OutputStream
    pub cur_segment_txid : ℤ
    pub next_txid : ℤ
    pub highest_written_txid : ℤ
    pub current_epoch_ipc_serial : ℤ
    pub storage : JnStorage
    pub last_promised_epoch : PersistentLongFile
    pub last_writer_epoch : PersistentLongFile
    pub committed_txn_id : BestEffortLongFile
    pub fjm : FileJournalManager
    pub disk : host.Disk

  abbrev pub Call : Type 0 → Type 0
  Call A = Action Journal A

  -- A call that reads the files, with no effect on them.
  unfoldable pub reading : {A : Type 0} → (Journal → Outcome A) → Call A
  reading f j = (f j, j)

  -- A call on the files alone, with its success.
  unfoldable pub changing : (Journal → Bool × host.Disk) → Call (Unit {0})
  changing f j =
      let (worked, d) = f j in (if worked then done tt else fail error, record j { disk = d })

  -- `lastPromisedEpoch->get` and `set`
  unfoldable pub get_promised : Call ℤ
  get_promised j =
      let (r, f) = Persistent.get j.last_promised_epoch j.disk in
      (r, record j { last_promised_epoch = f })

  unfoldable pub set_promised : ℤ → Call (Unit {0})
  set_promised v j =
      let (r, f, d) = Persistent.set v j.last_promised_epoch j.disk in
      (r, record j { last_promised_epoch = f; disk = d })

  -- `lastWriterEpoch->get` and `set`
  unfoldable pub get_writer : Call ℤ
  get_writer j =
      let (r, f) = Persistent.get j.last_writer_epoch j.disk in
      (r, record j { last_writer_epoch = f })

  unfoldable pub set_writer : ℤ → Call (Unit {0})
  set_writer v j =
      let (r, f, d) = Persistent.set v j.last_writer_epoch j.disk in
      (r, record j { last_writer_epoch = f; disk = d })

  -- `committedTxnId->get` and `set`
  unfoldable pub get_committed : Call ℤ
  get_committed j =
      let (r, f, d) = BestEffort.get j.committed_txn_id j.disk in
      (r, record j { committed_txn_id = f; disk = d })

  unfoldable pub set_committed : ℤ → Call (Unit {0})
  set_committed v j =
      let (r, f, d) = BestEffort.set v j.committed_txn_id j.disk in
      (r, record j { committed_txn_id = f; disk = d })
