-- ===== src/Journal/Segments/Finalizing.antt =====
-- What `finalizeLogSegment` has found where it succeeds.
use jn_server_cc.Base.{
  ◌≡◌, refl, sym, ◌∙◌, ap, ◌⊎◌, inl, inr, Bool, true, false, not, ℤ, eqb_ℤ, eq_of_parts, arith,
  done, error, abort, stop_if, when, Outcome-cases, if◌then◌else◌, >>=-eq-done, ◌>>=◌, ◌>>◌,
}
use jn_server_cc.Host.{Host}
use jn_server_cc.EditLog.File.{EditLogFile, is_initialized}
use jn_server_cc.Manager.{get_log_file}
use jn_server_cc.Journal.State.{Journal, Call, reading}
use jn_server_cc.Journal.Scanning.{scan_log}
use jn_server_cc.Journal.Segments.{validated, renamed_to, finalize_file, purge_paxos_decision}

module _ ⦃host : Host⦄ where
  -- A scan of the log ends at a txid.
  abbrev pub ScansTo : ℤ → EditLogFile → Journal → Type 0
  ScansTo end l j = (l' : EditLogFile) × ((scan_log l j).0 ≡ done l') × (l'.last_txid ≡ end)

  -- A finalized log ends at the txid; one in progress does where it has to be validated.
  abbrev pub MayFinalize : ℤ → Bool → EditLogFile → Journal → Type 0
  MayFinalize end needs_validation l j =
      ((l.in_progress ≡ false) × (l.last_txid ≡ end))
      ⊎ ((l.in_progress ≡ true) × ((needs_validation ≡ false) ⊎ ScansTo end l j))

  validated_done :
      (l : EditLogFile) (end : ℤ) (j : Journal) → (validated l end j).0 ≡ done tt → ScansTo end l j
  unfolding validated ◌>>=◌
  validated_done l end j h = elim (Outcome-cases (scan_log l j).0) [
    | inl (l', e) ↦ (l', e, eq_of_parts l'.last_txid end (ground (arith, rw e at h)))
    | inr (x, e) ↦ absurd (cc (rw e at h))
  ]

  in_progress_done :
      (start end : ℤ) (needs_validation : Bool) (l : EditLogFile) (j : Journal)
      → ((when needs_validation (validated l end) >> renamed_to start end) j).0 ≡ done tt
      → (needs_validation ≡ false) ⊎ ScansTo end l j
  in_progress_done start end false l j h = inl refl
  in_progress_done start end true l j h =
      let (u, e, _, _) = >>=-eq-done (validated l end) (λ _. renamed_to start end) j tt h in
      inr (validated_done l end j e)

  ended :
      (end last : ℤ) (j : Journal)
      → (stop_if {S = Journal} (not (eqb_ℤ end last)) abort j).0 ≡ done tt
      → last ≡ end
  unfolding ◌>>=◌
  ended end last j h = sym (eq_of_parts end last (ground arith))

  -- What is done with a log that is found.
  abbrev pub with_log : ℤ → ℤ → Bool → EditLogFile → Call (Unit {0})
  with_log start end needs_validation l =
      if l.in_progress
      then (when needs_validation (validated l end) >> renamed_to start end)
      else stop_if (not (eqb_ℤ end l.last_txid)) abort

  branch_done :
      (b : Bool) (m m' : Call (Unit {0})) (j : Journal)
      → ((if b then m else m') j).0 ≡ done tt
      → ((b ≡ true) × ((m j).0 ≡ done tt)) ⊎ ((b ≡ false) × ((m' j).0 ≡ done tt))
  branch_done true m m' j h = inl (refl, h)
  branch_done false m m' j h = inr (refl, h)

  with_log_done :
      (start end : ℤ) (needs_validation : Bool) (l : EditLogFile) (j : Journal)
      → (with_log start end needs_validation l j).0 ≡ done tt
      → MayFinalize end needs_validation l j
  with_log_done start end needs_validation l j h =
      elim (branch_done l.in_progress
        (when needs_validation (validated l end) >> renamed_to start end)
        (stop_if (not (eqb_ℤ end l.last_txid)) abort) j h) [
          | inl (e, h') ↦ inr (e, in_progress_done start end needs_validation l j h')
          | inr (e, h') ↦ inl (e, ended end l.last_txid j h')
        ]

  pub stop_if_kept : (b : Bool) (j : Journal) → (stop_if {S = Journal} b error j).1 ≡ j
  unfolding ◌>>=◌
  stop_if_kept true j = refl
  stop_if_kept false j = refl

  there :
      (l : EditLogFile) (j : Journal) (u : Unit {0})
      → (stop_if {S = Journal} (not (is_initialized l)) error j).0 ≡ done u
      → is_initialized l ≡ true
  unfolding ◌>>=◌
  there l j u h = ground arith

  -- Behind the check of the current segment, finalizing succeeds only where getLogFile finds a
  -- log for the first txid, and that log is either finalized and ends at the txid that was asked
  -- for, or in progress and, where it has to be validated, its scan ends at that txid.
  pub finalize_file_success :
      (start end : ℤ) (needs_validation : Bool) (j : Journal)
      → (finalize_file start end needs_validation j).0 ≡ done tt
      → (l : EditLogFile) × (get_log_file j.storage start j.disk ≡ done l)
        × (is_initialized l ≡ true)
        × MayFinalize end needs_validation l j
  unfolding finalize_file reading
  finalize_file_success start end needs_validation j h =
      let (l, e1, h1, _) =
        >>=-eq-done (reading (λ k. get_log_file k.storage start k.disk)) _ j tt h in
      let b = not (is_initialized l) in
      let rest : Call (Unit {0}) =
        with_log start end needs_validation l >> purge_paxos_decision l.first_txid in
      let (u, e2, h2, _) = >>=-eq-done (stop_if b error) (λ _. rest) j tt h1 in
      let h3 : (rest j).0 ≡ done tt = ap (λ k. (rest k).0) (sym (stop_if_kept b j)) ∙ h2 in
      let (v, e3, _, _) =
        >>=-eq-done (with_log start end needs_validation l) (λ _. purge_paxos_decision l.first_txid)
          j tt h3 in
      (l, e1, there l j u e2, with_log_done start end needs_validation l j e3)
