-- ===== src/Journal/Manifest.antt =====
-- `getEditLogManifest` and `checkIfLogsInSequence`.
pub mod Sequence
use jn_server_cc.Base.{
  ℕ, Bool, true, false, List, [], ◌∷◌, ◌++◌, Option, none, some, codes, if◌then◌else◌, ℤ, leb_ℤ,
  Outcome, done, fail, error, pure, gets, ◌>>=◌, ◌>>◌,
}
use jn_server_cc.Host.{Host}
use jn_server_cc.EditLog.File.{EditLogFile, new_log}
use jn_server_cc.Manager.{get_remote_edit_logs}
use jn_server_cc.Journal.State.{Call, reading}
use jn_server_cc.Journal.Epochs.{check_formatted}

-- `prev` is null before the first round.
unfoldable pub logs_after : Option EditLogFile → List EditLogFile → Outcome (Unit {0})
logs_after prev [] = done tt
logs_after none (l ∷ ls) = logs_after (some l) ls
logs_after (some prev) (l ∷ ls) =
    let rest = logs_after (some l) ls in
    if leb_ℤ l.first_txid prev.last_txid then fail error else rest

-- `checkIfLogsInSequence`
unfoldable pub check_if_logs_in_sequence : List EditLogFile → Outcome (Unit {0})
unfolding logs_after
check_if_logs_in_sequence logs = logs_after none logs

-- The loop that takes the first log in progress out.
unfoldable pub take_in_progress : List EditLogFile → Option EditLogFile × List EditLogFile
take_in_progress [] = (none, [])
take_in_progress (l ∷ ls) =
    let (found, rest) = take_in_progress ls in
    if l.in_progress then (some l, ls) else (found, l ∷ rest)

-- The log in progress comes back at the end, as if it were finalized at the highest txid written.
unfoldable pub with_written : ℤ → List EditLogFile → List EditLogFile
unfolding take_in_progress new_log
with_written highest logs =
    let (found, rest) = take_in_progress logs in
    elim found [
      | none ↦ rest
      | some l ↦ rest ++ new_log (codes " ") l.first_txid highest false ∷ []
    ]

module _ ⦃host : Host⦄ where
  -- `getEditLogManifest`
  unfoldable pub get_edit_log_manifest : ℤ → Bool → Call (List EditLogFile)
  get_edit_log_manifest since ok = do
    check_formatted
    remote ← reading (λ j. get_remote_edit_logs j.storage since ok j.disk)
    highest ← gets (λ j. j.highest_written_txid)
    let logs = if ok then with_written highest remote else remote
    reading (λ j. check_if_logs_in_sequence logs)
    pure logs
