-- ===== src/Journal/Segments/Renaming.antt =====
-- How finalizing the current segment renames its file.
use jn_server_cc.Base.{
  ◌≡◌, refl, sym, ap, ◌∙◌, Bool, true, false, not, Bytes, ℤ, pos, ◌+ℤ◌, eqb_ℤ, eqb_ℤ_refl,
  Option-cases, inl, inr, arith, done, error, undefined, stop_if, if◌then◌else◌, ◌>>=◌, ◌>>◌,
  >>=-eq-done,
}
use jn_server_cc.Text.{is_long}
use jn_server_cc.Host.{Host}
use jn_server_cc.EditLog.File.{EditLogFile, is_initialized}
use jn_server_cc.Files.{
  file_exists, file_rename, file_delete, get_in_progress_edits_file, get_finalized_edits_file,
}
use jn_server_cc.Storage.{JnStorage, get_paxos_file}
use jn_server_cc.Manager
use jn_server_cc.Manager.{get_log_file}
use jn_server_cc.Journal.State.{Journal, Call, reading, changing}
use jn_server_cc.Journal.Epochs.{abort_cur_segment}
use jn_server_cc.Journal.Segments.{
  purge_paxos_decision, long_sum, renamed_to, finalize_file, finalize_segment,
}
use jn_server_cc.Journal.Segments.Finalizing.{with_log, stop_if_kept}

module _ ⦃host : Host⦄ where
  -- The file of a finalized segment in the directory of the journal.
  abbrev pub finalized_file : ℤ → ℤ → Journal → Bytes
  finalized_file start end j = get_finalized_edits_file j.storage.current_dir start end

  abbrev pub in_progress_file : ℤ → Journal → Bytes
  in_progress_file start j = get_in_progress_edits_file j.storage.current_dir start

  -- Deleting the file of a decision leaves the file as it is.
  abbrev pub SparedByPurge : Bytes → JnStorage → Type 0
  SparedByPurge f s =
      (txid : ℤ) (d : host.Disk)
      → host.read_file f (host.remove (get_paxos_file s txid) d).1 ≡ host.read_file f d

  pub purge_kept :
      (f : Bytes) (txid : ℤ) (j : Journal)
      → SparedByPurge f j.storage
      → host.read_file f (purge_paxos_decision txid j).1.disk ≡ host.read_file f j.disk
  unfolding purge_paxos_decision reading changing file_exists file_delete ◌>>=◌
  purge_kept f txid j h = ground (arith, h txid j.disk)

  pub renamed_done :
      (start end : ℤ) (j : Journal)
      → (renamed_to start end j).0 ≡ done tt
      → (host.rename (in_progress_file start j) (finalized_file start end j) j.disk
          ≡ (true, (renamed_to start end j).1.disk))
        × ((renamed_to start end j).1.storage ≡ j.storage)
  unfolding renamed_to Manager.finalize_log_segment file_exists file_rename
  renamed_done start end j h = (ground arith, refl)

  chosen :
      (b : Bool) (m m' : Call (Unit {0})) (j : Journal) → b ≡ true → (if b then m else m') j ≡ m j
  chosen true m m' j e = refl
  chosen false m m' j e = absurd (cc e)

  -- A log in progress that needs no validation is renamed.
  with_log_renames :
      (start end : ℤ) (l : EditLogFile) (j : Journal)
      → l.in_progress ≡ true
      → with_log start end false l j ≡ renamed_to start end j
  unfolding ◌>>=◌
  with_log_renames start end l j e = chosen l.in_progress _ _ j e

  pub stored_aborted : (j : Journal) → (abort_cur_segment j).1.storage ≡ j.storage
  unfolding abort_cur_segment ◌>>=◌
  stored_aborted j = elim (Option-cases j.cur_segment) [
    | inl e ↦ rw (e, abort_cur_segment)
    | inr (s, e) ↦ rw (e, abort_cur_segment)
  ]

  -- Finalizing a log in progress renames it, and deletes the file of the decision.
  pub finalize_file_renames :
      (start end : ℤ) (j : Journal)
      → ((l : EditLogFile) → get_log_file j.storage start j.disk ≡ done l → l.in_progress ≡ true)
      → (finalize_file start end false j).0 ≡ done tt
      → (txid : ℤ) × ((renamed_to start end j).0 ≡ done tt)
        × (finalize_file start end false j ≡ purge_paxos_decision txid (renamed_to start end j).1)
  unfolding finalize_file reading
  finalize_file_renames start end j found h =
      let (l, e1, h1, q1) =
        >>=-eq-done (reading (λ k. get_log_file k.storage start k.disk)) _ j tt h in
      let b = not (is_initialized l) in
      let rest : Call (Unit {0}) =
        with_log start end false l >> purge_paxos_decision l.first_txid in
      let (u, e2, h2, q2) = >>=-eq-done (stop_if b error) (λ _. rest) j tt h1 in
      let kept = stop_if_kept b j in
      let h3 : (rest j).0 ≡ done tt = ap (λ k. (rest k).0) (sym kept) ∙ h2 in
      let (v, e3, h4, q3) =
        >>=-eq-done (with_log start end false l) (λ _. purge_paxos_decision l.first_txid) j tt h3 in
      let same = with_log_renames start end l j (found l e1) in
      (
        l.first_txid,
        ap (λ r. r.0) (sym same) ∙ e3,
        q1 ∙ (q2 ∙ (ap rest kept ∙ (q3 ∙ ap (λ r. purge_paxos_decision l.first_txid r.1) same))),
      )

  -- What finalizing does with the current segment where it succeeds.
  pub finalize_current :
      (start end : ℤ) (j : Journal)
      → j.cur_segment_txid ≡ start
      → (finalize_segment start end j).0 ≡ done tt
      → finalize_segment start end j ≡ finalize_file start end false (abort_cur_segment j).1
  unfolding finalize_segment long_sum abort_cur_segment ◌>>=◌
  finalize_current start end j e h =
      let j2 = (abort_cur_segment j).1 in
      let bad = not (eqb_ℤ j2.next_txid (end +ℤ pos 1)) in
      let file = finalize_file start end false in
      let fits = not (is_long (end +ℤ pos 1)) in
      let rest = stop_if bad error >> file in
      let taken : finalize_segment start end j ≡ (stop_if fits undefined >> rest) j2 =
        chosen (eqb_ℤ start j.cur_segment_txid) _ _ j (rw e (eqb_ℤ_refl start)) in
      let h2 : ((stop_if fits undefined >> rest) j2).0 ≡ done tt = ap (λ r. r.0) (sym taken) ∙ h in
      let (_, _, h3, q) = >>=-eq-done (stop_if fits undefined) (λ _. rest) j2 tt h2 in
      let kept = stop_if_kept fits j2 in
      let h4 : (rest j2).0 ≡ done tt = ap (λ k. (rest k).0) (sym kept) ∙ h3 in
      let (_, _, _, q') = >>=-eq-done (stop_if bad error) (λ _. file) j2 tt h4 in
      taken ∙ (q ∙ (ap rest kept ∙ (q' ∙ ap file (stop_if_kept bad j2))))
