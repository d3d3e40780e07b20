-- ===== src/Journal/Requests/Once.antt =====
-- `newEpoch`: what it promises, and that no epoch is given out twice.
use jn_server_cc.Base.{
  ℕ, ◌≡◌, refl, List, Option, none, some, ℤ, pos, ◌≤ℤ◌, ◌<ℤ◌, arith, done, fail, error,
  if◌then◌else◌, pure, ◌>>=◌, >>=-eq-done,
}
use jn_server_cc.Base.Moves.{Moves}
use jn_server_cc.Host.{Host}
use jn_server_cc.LongFile.Persistent.{get, set}
use jn_server_cc.Storage.{StorageInfo, check_consistent_namespace}
use jn_server_cc.EditLog.File.{is_initialized}
use jn_server_cc.Messages.{to_u64}
use jn_server_cc.Journal.State.{Journal, Call, reading, get_promised, set_promised}
use jn_server_cc.Journal.Epochs.{check_formatted, update_last_promised_epoch, abort_cur_segment}
use jn_server_cc.Journal.Epochs.Promise.{promised_epoch, IsLoaded, Later, SameEpoch}
use jn_server_cc.Journal.Scanning.{promise_epoch, new_epoch, scan_storage_for_latest_edits}
use jn_server_cc.Journal.Requests.Steady.{steady_rules}
use jn_server_cc.Journal.Requests.Fencing.{run-Later}
use jn_server_cc.Journal.Requests.{Request, new_epochs, serve, run}

module _ ⦃host : Host⦄ where
  -- The journal promises the epoch and waits for serial numbers above 0.
  abbrev pub Promises : ℤ → Journal → Type 0
  Promises epoch j =
      IsLoaded j × (j.last_promised_epoch.value ≡ epoch) × (j.current_epoch_ipc_serial ≡ pos 0)

  promise_epoch_done :
      (epoch : ℤ) (j : Journal) (u : Unit {0})
      → (promise_epoch epoch j).0 ≡ done u
      → Promises epoch (promise_epoch epoch j).1 × (IsLoaded j → promised_epoch j <ℤ epoch)
  unfolding promise_epoch update_last_promised_epoch get_promised set_promised get set ◌>>=◌
  promise_epoch_done epoch j u h = ground arith

  -- The end of `newEpoch`, behind the promise.
  abbrev after_promise : Call (Option ℕ)
  after_promise = abort_cur_segment >>= λ _.
      (scan_storage_for_latest_edits >>= λ latest.
      pure (if is_initialized latest then some (to_u64 latest.first_txid) else none))

  after_promise-SameEpoch : Moves SameEpoch after_promise
  after_promise-SameEpoch = search steady_rules

  namespace_kept :
      (ns : StorageInfo) (j : Journal)
      → (reading (λ k. check_consistent_namespace k.storage ns) j).1 ≡ j
  unfolding reading
  namespace_kept ns j = refl

  pub new_epoch_parts :
      (ns : StorageInfo) (epoch : ℤ) (j : Journal) (last : Option ℕ)
      → (new_epoch ns epoch j).0 ≡ done last
      → Promises epoch (new_epoch ns epoch j).1 × (IsLoaded j → promised_epoch j <ℤ epoch)
  unfolding new_epoch check_formatted
  new_epoch_parts ns epoch j last h =
      let (a, e1, h1, q1) = >>=-eq-done check_formatted _ j last h in
      let (b, e2, h2, q2) =
        >>=-eq-done (reading (λ k. check_consistent_namespace k.storage ns)) _ j last h1 in
      let j2 = (reading (λ k. check_consistent_namespace k.storage ns) j).1 in
      let (c, e3, h3, q3) = >>=-eq-done (promise_epoch epoch) _ j2 last h2 in
      let s = after_promise-SameEpoch.at (promise_epoch epoch j2).1 in
      let (p, above) = promise_epoch_done epoch j2 c e3 in
      (rw (q1, q2, q3, s.promise, s.serial) p, rw (← namespace_kept ns j) above)

  -- When newEpoch succeeds in a journal whose promised epoch has been loaded, its epoch is above
  -- that promise; afterwards the journal promises that epoch, and its last serial number is 0.
  new_epoch-Promises :
      (ns : StorageInfo) (epoch : ℤ) (j : Journal) (last : Option ℕ)
      → IsLoaded j
      → (new_epoch ns epoch j).0 ≡ done last
      → Promises epoch (new_epoch ns epoch j).1 × (promised_epoch j <ℤ epoch)
  new_epoch-Promises ns epoch j last l h =
      let (p, above) = new_epoch_parts ns epoch j last h in (p, above l)

  promise_epoch_refused :
      (epoch : ℤ) (j : Journal)
      → IsLoaded j
      → epoch ≤ℤ promised_epoch j
      → promise_epoch epoch j ≡ (fail error, j)
  unfolding promise_epoch get_promised get ◌>>=◌
  promise_epoch_refused epoch j l h = ground arith

  pub new_epoch_stale :
      (ns : StorageInfo) (epoch : ℤ) (j : Journal)
      → IsLoaded j
      → epoch ≤ℤ promised_epoch j
      → new_epoch ns epoch j ≡ (fail error, j)
  unfolding new_epoch check_formatted reading check_consistent_namespace ◌>>=◌
  new_epoch_stale ns epoch j l h = ground (arith, promise_epoch_refused epoch j l h)

  new_epoch_refused :
      (ns : StorageInfo) (epoch : ℤ) (j : Journal)
      → IsLoaded j
      → epoch ≤ℤ promised_epoch j
      → serve (new_epochs ns epoch) j ≡ (fail error, j)
  unfolding serve ◌>>=◌
  new_epoch_refused ns epoch j l h = rw (new_epoch_stale ns epoch j l h) refl

  pub not_below :
      (old new : ℤ) (j k : Journal)
      → Promises old j
      → Later j k
      → new ≤ℤ old
      → new ≤ℤ promised_epoch k
  not_below old new j k p l h = ground arith

  -- Once newEpoch has succeeded with an epoch, newEpoch with that epoch or an older one is
  -- refused with an error and changes nothing, for whichever namespace, whatever requests are
  -- served in between and however they end.
  pub new_epoch_once :
      (ns ns' : StorageInfo) (old new : ℤ) (last : Option ℕ) (rs : List Request) (j : Journal)
      → (new_epoch ns old j).0 ≡ done last
      → new ≤ℤ old
      → serve (new_epochs ns' new) (run rs (new_epoch ns old j).1)
        ≡ (fail error, run rs (new_epoch ns old j).1)
  new_epoch_once ns ns' old new last rs j e n =
      let k = (new_epoch ns old j).1 in
      let p = (new_epoch_parts ns old j last e).0 in
      let (l, later) = run-Later rs k p.0 in
      new_epoch_refused ns' new (run rs k) l (not_below old new k (run rs k) p later n)
