-- ===== src/Http/Replies.antt =====
-- What a download is answered with.
use jn_server_cc.Base.{
  ◌≡◌, refl, sym, ◌∙◌, ap, true, List, [], ◌∷◌, none, Bytes, codes, ℤ, eq_of_parts, arith, done,
  fail, error, abort, undefined, done-injective, Outcome-cases, Bool-cases, inl, inr, ◌>>=◌,
}
use jn_server_cc.Text.{strtol}
use jn_server_cc.Host.{Host}
use jn_server_cc.Storage.{JnStorage}
use jn_server_cc.EditLog.File.{EditLogFile, is_initialized}
use jn_server_cc.Manager.{logs_at, only_log, match_edit_logs, get_log_file}
use jn_server_cc.Journal.State.{Journal}
use jn_server_cc.Dict.{find}
use jn_server_cc.Node.{
  JournalNode, get_or_create_journal, get_log_dir, create_journal, through_pointer,
}
use jn_server_cc.Http.{check_storage_info, file, Variables, log_found, find_segment, send_reply}

file-injective : {f g : Bytes} → file f ≡ file g → f ≡ g
file-injective h = cc h

-- Every log begins at a txid.
abbrev AllAt : ℤ → List EditLogFile → Type 0
AllAt t [] = Unit {0}
AllAt t (l ∷ ls) = (l.first_txid ≡ t) × AllAt t ls

logs_at-AllAt : (t : ℤ) (ls : List EditLogFile) → AllAt t (logs_at t ls)
unfolding logs_at
logs_at-AllAt t [] = tt
logs_at-AllAt t (l ∷ ls) = ground (arith, logs_at-AllAt t ls, eq_of_parts l.first_txid t)

only_log_first :
    (t : ℤ) (ls : List EditLogFile) (l : EditLogFile)
    → AllAt t ls
    → only_log ls ≡ done l
    → is_initialized l ≡ true
    → l.first_txid ≡ t
unfolding only_log
only_log_first t [] l a h i = absurd (cc (i, ap is_initialized (done-injective h)))
only_log_first t (m ∷ []) l a h i =
    ap (λ (x : EditLogFile). x.first_txid) (sym (done-injective h)) ∙ a.0
only_log_first t (m ∷ (k ∷ ls)) l a h i = absurd (cc h)

module _ ⦃host : Host⦄ where
  -- A log that is found for a txid begins there.
  get_log_file_first :
      (st : JnStorage) (t : ℤ) (d : host.Disk) (l : EditLogFile)
      → get_log_file st t d ≡ done l
      → is_initialized l ≡ true
      → l.first_txid ≡ t
  unfolding get_log_file
  get_log_file_first st t d l h i = elim (Outcome-cases (match_edit_logs st.current_dir d)) [
    | inl (ls, e) ↦
        only_log_first t (logs_at t ls) l (logs_at-AllAt t ls) (rw (get_log_file, e) at h) i
    | inr (x, e) ↦ absurd (cc (rw (get_log_file, e) at h))
  ]

  log_found_file :
      (st : JnStorage) (t : ℤ) (d : host.Disk) (f : Bytes)
      → log_found st t d ≡ file f
      → (l : EditLogFile) × (get_log_file st t d ≡ done l)
        × (l.first_txid ≡ t)
        × (f ≡ l.full_file_name)
  log_found_file st t d f h = elim (Outcome-cases (get_log_file st t d)) [
    | inr (x, e) ↦ absurd (cc (rw (log_found, e) at h))
    | inl (l, e) ↦ elim (Bool-cases (is_initialized l)) [
      | inr i ↦ absurd (cc (rw (log_found, e, i) at h))
      | inl i ↦
          (l, e, get_log_file_first st t d l e i, sym (file-injective (rw (log_found, e, i) at h)))
    ]
  ]

  -- A download is answered with a file only if the storage information passes the check, and the
  -- file is that of the log which getLogFile finds, and that log begins at the txid of the
  -- request.
  pub find_segment_file :
      (info txid f : Bytes) (j : Journal)
      → (find_segment info txid j).0 ≡ done (file f)
      → (check_storage_info j.storage info ≡ true)
        × ((l : EditLogFile) × (get_log_file j.storage (strtol txid).0 j.disk ≡ done l)
            × (l.first_txid ≡ (strtol txid).0)
            × (f ≡ l.full_file_name))
  unfolding find_segment
  find_segment_file info txid f j h = elim (Bool-cases (check_storage_info j.storage info)) [
    | inr c ↦ absurd (cc (rw (find_segment, c) at h))
    | inl c ↦ (
      c,
      log_found_file j.storage (strtol txid).0 j.disk f
          (done-injective (rw (find_segment, c) at h)),
    )
  ]

  -- Where no journal has the empty id, a download with an empty journal id ends the process.
  send_reply_no_jid :
      (var : Variables) (n : JournalNode)
      → var (codes "jid") 100 ≡ []
      → find [] n.journals_by_id ≡ none
      → (send_reply var n).0 ≡ fail abort
  unfolding send_reply get_or_create_journal get_log_dir ◌>>=◌
  send_reply_no_jid var n e h = ground (arith, e, h)

  get_or_create_failed :
      (jid : Bytes) (n : JournalNode)
      → find jid n.journals_by_id ≡ none
      → (get_or_create_journal jid n).0 ≡ fail error
      → find jid (get_or_create_journal jid n).1.journals_by_id ≡ none
  unfolding get_or_create_journal create_journal get_log_dir ◌>>=◌
  get_or_create_failed jid n h e = ground (arith, h)

  -- A download for a journal that is not in the map and whose creation returns an error is
  -- undefined behaviour, a use of the deleted journal.
  pub send_reply_dangling :
      (var : Variables) (n : JournalNode)
      → find (var (codes "jid") 100) n.journals_by_id ≡ none
      → (get_or_create_journal (var (codes "jid") 100) n).0 ≡ fail error
      → (send_reply var n).0 ≡ fail undefined
  unfolding send_reply through_pointer ◌>>=◌
  send_reply_dangling var n h e =
      let jid = var (codes "jid") 100 in
      rw (send_reply, e, through_pointer, get_or_create_failed jid n h e) refl
