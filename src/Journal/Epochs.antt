-- ===== src/Journal/Epochs.antt =====
-- What the requests share: `checkFormatted`, `checkRequest`, `checkWriteRequest`,
-- `updateLastPromisedEpoch`, `abortCurSegment`.
pub mod Promise
pub mod Order
use jn_server_cc.Base.{
  ℕ, Bool, true, false, not, Option, none, some, if◌then◌else◌, ℤ, pos, ltb_ℤ, leb_ℤ, eqb_ℤ,
  Outcome, done, fail, error, abort, undefined, pure, stop_if, gets, modify, when, ◌>>=◌, ◌>>◌,
}
use jn_server_cc.Host.{Host}
use jn_server_cc.EditLog.Output
use jn_server_cc.EditLog.Output.{OutputStream}
use jn_server_cc.EditLog.Transaction.{invalid_txid}
use jn_server_cc.Storage.{is_formatted}
use jn_server_cc.Journal.State.{
  Journal, Call, RequestInfo, has_committed_txid, get_promised, set_promised, get_writer,
  get_committed, set_committed,
}

module _ ⦃host : Host⦄ where
  unfoldable pub check_formatted : Call (Unit {0})
  check_formatted j = (if is_formatted j.storage then done tt else fail error, j)

  -- A new promise starts the serial numbers at 0.
  unfoldable pub update_last_promised_epoch : ℤ → Call (Unit {0})
  update_last_promised_epoch epoch = do
    set_promised epoch
    modify (λ j. record j { current_epoch_ipc_serial = pos 0 })

  -- `if (reqInfo.getEpoch() < lpe) ... else if (reqInfo.getEpoch() > lpe) ...`
  unfoldable pub check_epoch : RequestInfo → Call (Unit {0})
  unfolding update_last_promised_epoch
  check_epoch req = do
    lpe ← get_promised
    stop_if (ltb_ℤ req.epoch lpe) error
    when (ltb_ℤ lpe req.epoch) (update_last_promised_epoch req.epoch)

  -- The message of the refusal prints the serial number, a long, with `%s`: undefined behaviour.
  unfoldable pub check_serial : RequestInfo → Call (Unit {0})
  check_serial req = do
    serial ← gets (λ j. j.current_epoch_ipc_serial)
    stop_if (leb_ℤ req.ipc_serial_number serial) undefined
    modify (λ j. record j { current_epoch_ipc_serial = req.ipc_serial_number })

  unfoldable pub check_committed : RequestInfo → Call (Unit {0})
  check_committed req = when (has_committed_txid req) (do
    cti ← get_committed
    stop_if (ltb_ℤ req.committed_txid cti) abort
    set_committed req.committed_txid)

  -- `checkRequest`
  unfoldable pub check_request : RequestInfo → Call (Unit {0})
  check_request req = do check_epoch req; check_serial req; check_committed req

  -- `checkWriteRequest`
  unfoldable pub check_write_request : RequestInfo → Call (Unit {0})
  check_write_request req = do
    check_request req
    lwe ← get_writer
    stop_if (not (eqb_ℤ req.epoch lwe)) error

  -- `curSegment->close()` or `abort()`, and the pointer reset.
  abbrev pub dropped : Option OutputStream → Journal → Journal
  dropped none j = j
  dropped (some o) j =
      let (_, d) = Output.abort o j.disk in
      record j { cur_segment = none; cur_segment_txid = invalid_txid; disk = d }

  unfoldable pub abort_cur_segment : Call (Unit {0})
  abort_cur_segment = modify (λ j. dropped j.cur_segment j)
