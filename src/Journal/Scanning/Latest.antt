-- ===== src/Journal/Scanning/Latest.antt =====
-- Which segment `newEpoch` answers.
use mathlib.Core.List.{reverse}
use mathlib.Core.Option.{some-injective}
use jn_server_cc.Base.{
  ℕ, ◌≡◌, ◌≢◌, ◌⊎◌, refl, sym, ap, ◌∙◌, true, false, List, [], ◌∷◌, ◌++◌, Option, none, some, inl,
  inr, if◌then◌else◌, ℤ, pos, eqb_ℤ, eq_of_eqb_ℤ, Bool-cases, Outcome-cases, done, ◌>>=◌, ◌>>◌,
  >>=-eq-done, done-injective,
}
use jn_server_cc.Host.{Host}
use jn_server_cc.Messages.{to_u64}
use jn_server_cc.EditLog.Transaction.{invalid_txid}
use jn_server_cc.EditLog.File.{EditLogFile, no_log, is_initialized, scan}
use jn_server_cc.Files.{dir_exists}
use jn_server_cc.Storage.{StorageInfo, check_consistent_namespace}
use jn_server_cc.Manager.{get_log_files}
use jn_server_cc.Manager.Sorting.{InOrder, get_log_files-InOrder}
use jn_server_cc.Journal.State.{Journal, reading}
use jn_server_cc.Journal.Epochs.{check_formatted, abort_cur_segment}
use jn_server_cc.Journal.Scanning.{
  scan_log, move_aside_empty, latest_or, latest_of, scan_storage_for_latest_edits, promise_epoch,
  new_epoch,
}

module _ ⦃host : Host⦄ where
  -- The scan of each of the logs finds no transaction, and the log is moved aside before the next.
  abbrev pub Emptied : List EditLogFile → Journal → Journal → Type 0
  Emptied [] k k' = k ≡ k'
  Emptied (y ∷ ys) k k' =
      (l : EditLogFile) × ((scan_log y k).0 ≡ done l)
      × (l.last_txid ≡ invalid_txid)
      × Emptied ys (move_aside_empty l k).1 k'

  -- A log behind logs without transactions, with at least one.
  abbrev pub LatestOf : List EditLogFile → Journal → EditLogFile → Type 0
  LatestOf ls k l =
      (newer : List EditLogFile) × (x : EditLogFile) × (older : List EditLogFile) × (k' : Journal)
      × (ls ≡ newer ++ x ∷ older)
      × Emptied newer k k'
      × ((scan_log x k').0 ≡ done l)
      × (l.last_txid ≢ invalid_txid)
      × (l.first_txid ≡ x.first_txid)

  scan_log_kept : (y : EditLogFile) (k : Journal) → (scan_log y k).1 ≡ k
  unfolding scan_log
  scan_log_kept y k = elim (Outcome-cases (scan y k.disk).0) [
    | inl (u, e) ↦ rw (scan_log, e) refl
    | inr (x, e) ↦ rw (scan_log, e) refl
  ]

  first_kept :
      (y : EditLogFile) (k : Journal) (l : EditLogFile)
      → (scan_log y k).0 ≡ done l
      → l.first_txid ≡ y.first_txid
  unfolding scan_log scan
  first_kept y k l h = elim (Outcome-cases (scan y k.disk).0) [
    | inl (u, e) ↦
        ap (λ (x : EditLogFile). x.first_txid) (sym (done-injective (rw (scan_log, e) at h)))
    | inr (x, e) ↦ absurd (cc (rw (scan_log, e) at h))
  ]

  not_invalid : (a : ℤ) → eqb_ℤ a invalid_txid ≡ false → a ≢ invalid_txid
  not_invalid a h e = cc (rw e at h)

  later_of :
      (y : EditLogFile) (ys : List EditLogFile) (k : Journal) (l l' : EditLogFile)
      → (scan_log y k).0 ≡ done l'
      → l'.last_txid ≡ invalid_txid
      → LatestOf ys (move_aside_empty l' k).1 l
      → LatestOf (y ∷ ys) k l
  later_of y ys k l l' e empty (newer, x, older, k', split, emptied, scanned, ne, first) = (
    y ∷ newer,
    x,
    older,
    k',
    ap (λ zs. y ∷ zs) split,
    (l', e, empty, emptied),
    scanned,
    ne,
    first,
  )

  here :
      (y : EditLogFile) (ys : List EditLogFile) (k : Journal) (l : EditLogFile)
      → (scan_log y k).0 ≡ done l
      → l.last_txid ≢ invalid_txid
      → LatestOf (y ∷ ys) k l
  here y ys k l e ne = ([], y, ys, k, refl, refl, e, ne, first_kept y k l e)

  latest_of_found :
      (ls : List EditLogFile) (k : Journal) (l : EditLogFile)
      → (latest_of ls k).0 ≡ done l
      → (l ≡ no_log) ⊎ LatestOf ls k l
  unfolding latest_of latest_or ◌>>=◌
  latest_of_found [] k l h = inl (sym (done-injective h))
  latest_of_found (y ∷ ys) k l h =
      let (l', e, h1, q) = >>=-eq-done (scan_log y) _ k l h in
      let h2 = rw (scan_log_kept y k) at h1 in
      elim (Bool-cases (eqb_ℤ l'.last_txid invalid_txid)) [
        | inl empty ↦
            let h3 : ((move_aside_empty l' >> latest_of ys) k).0 ≡ done l = rw (empty) at h2 in
            let (u, e3, h4, q4) = >>=-eq-done (move_aside_empty l') (λ _. latest_of ys) k l h3 in
            elim (latest_of_found ys (move_aside_empty l' k).1 l h4) [
              | inl n ↦ inl n
              | inr found ↦
                  inr (later_of y ys k l l' e (eq_of_eqb_ℤ l'.last_txid invalid_txid empty) found)
            ]
        | inr full ↦
            let same : l' ≡ l = done-injective (rw (full) at h2) in
            inr (
              here y ys k l (e ∙ ap done same) (
                not_invalid l.last_txid
                  (ap (λ (x : EditLogFile). eqb_ℤ x.last_txid invalid_txid) (sym same) ∙ full)))
      ]

  found_in_files :
      (k : Journal) (l : EditLogFile)
      → ((reading (λ j. get_log_files j.storage (pos 0) j.disk) >>= λ files.
            latest_of (reverse files))
          k).0
        ≡ done l
      → (l ≡ no_log)
        ⊎ ((logs : List EditLogFile) × (get_log_files k.storage (pos 0) k.disk ≡ done logs)
            × LatestOf (reverse logs) k l)
  unfolding reading
  found_in_files k l h =
      let (logs, e, h1, q) =
        >>=-eq-done (reading (λ j. get_log_files j.storage (pos 0) j.disk))
          (λ files. latest_of (reverse files)) k l h in
      elim (latest_of_found (reverse logs) k l h1) [
        | inl n ↦ inl n
        | inr found ↦ inr (logs, e, found)
      ]

  found_in_storage :
      (k : Journal) (l : EditLogFile)
      → (scan_storage_for_latest_edits k).0 ≡ done l
      → (l ≡ no_log)
        ⊎ ((logs : List EditLogFile) × (get_log_files k.storage (pos 0) k.disk ≡ done logs)
            × LatestOf (reverse logs) k l)
  unfolding scan_storage_for_latest_edits reading ◌>>=◌
  found_in_storage k l h =
      let (there, e, h1, q) =
        >>=-eq-done (reading (λ j. dir_exists j.storage.current_dir j.disk)) _ k l h in
      elim (Bool-cases there) [
        | inl b ↦ found_in_files k l (rw b at h1)
        | inr b ↦ inl (sym (done-injective (rw b at h1)))
      ]

  -- The journal as newEpoch scans it.
  abbrev pub scanned_journal : ℤ → Journal → Journal
  scanned_journal epoch j = (abort_cur_segment (promise_epoch epoch j).1).1

  answered :
      (l : EditLogFile) (t : ℕ)
      → ◌≡◌ {A = Option ℕ} (if is_initialized l then some (to_u64 l.first_txid) else none) (some t)
      → (is_initialized l ≡ true) × (t ≡ to_u64 l.first_txid)
  answered l t h = elim (Bool-cases (is_initialized l)) [
    | inl e ↦ (e, sym (some-injective _ _ (rw e at h)))
    | inr e ↦ absurd (cc (rw e at h))
  ]

  -- Where newEpoch answers a txid, the logs of the directory, as they are once the promise is
  -- kept and the current segment ended, are listed in order of their first txids, and the txid is
  -- the first one of a log in which a scan finds a transaction, while the scan of each log that
  -- comes later in that order, from the last one down and each moved aside before the next is
  -- scanned, finds none.
  pub new_epoch_latest :
      (ns : StorageInfo) (epoch : ℤ) (j : Journal) (t : ℕ)
      → (new_epoch ns epoch j).0 ≡ done (some t)
      → (logs : List EditLogFile) × (l : EditLogFile) × (get_log_files
            (scanned_journal epoch j).storage
            (pos 0)
            (scanned_journal epoch j).disk
          ≡ done logs)
        × InOrder logs
        × LatestOf (reverse logs) (scanned_journal epoch j) l
        × (t ≡ to_u64 l.first_txid)
  unfolding new_epoch check_formatted reading abort_cur_segment ◌>>=◌
  new_epoch_latest ns epoch j t h =
      let (a, e1, h1, q1) = >>=-eq-done check_formatted _ j (some t) h in
      let (b, e2, h2, q2) =
        >>=-eq-done (reading (λ k. check_consistent_namespace k.storage ns)) _ j (some t) h1 in
      let (c, e3, h3, q3) = >>=-eq-done (promise_epoch epoch) _ j (some t) h2 in
      let k = scanned_journal epoch j in
      let (l, e4, h4, q4) = >>=-eq-done scan_storage_for_latest_edits _ k (some t) h3 in
      let (there, first) = answered l t (done-injective h4) in
      elim (found_in_storage k l e4) [
        | inl n ↦ absurd (cc (ap is_initialized (sym n) ∙ there))
        | inr (logs, e, found) ↦
            (logs, l, e, (get_log_files-InOrder k.storage (pos 0) k.disk logs e).3, found, first)
      ]
