-- ===== src/Manager/Sorting.antt =====
-- The logs that a directory lists come in the order of their first txids, each as often as before.
use jn_server_cc.Base.{
  ◌≡◌, List, [], ◌∷◌, ℤ, ◌≤ℤ◌, arith, done, Bool-cases, Outcome-cases, done-injective, inl, inr,
}
use mathlib.Core.List.Perm
use mathlib.Core.List.{Perm}
use mathlib.Core.Path.{subst}
use jn_server_cc.Host.{Host}
use jn_server_cc.Storage.{JnStorage}
use jn_server_cc.EditLog.File.{EditLogFile, log_lt}
use jn_server_cc.Manager.{
  insert_log, sort_logs, sorted, has_equal, logs_from, match_edit_logs, get_log_files,
}

-- Every log begins at a txid or above it.
abbrev BeginFrom : ℤ → List EditLogFile → Type 0
BeginFrom t [] = Unit {0}
BeginFrom t (l ∷ ls) = (t ≤ℤ l.first_txid) × BeginFrom t ls

abbrev pub InOrder : List EditLogFile → Type 0
InOrder [] = Unit {0}
InOrder (l ∷ ls) = BeginFrom l.first_txid ls × InOrder ls

lower : (t u : ℤ) (ls : List EditLogFile) → t ≤ℤ u → BeginFrom u ls → BeginFrom t ls
lower t u [] h b = tt
lower t u (l ∷ ls) h b = ground (arith, lower t u ls h b.1)

insert_log-BeginFrom :
    (t : ℤ) (l : EditLogFile) (ls : List EditLogFile)
    → t ≤ℤ l.first_txid
    → BeginFrom t ls
    → BeginFrom t (insert_log l ls)
unfolding insert_log
insert_log-BeginFrom t l [] h b = (h, tt)
insert_log-BeginFrom t l (m ∷ ms) h b = ground (arith, insert_log-BeginFrom t l ms h b.1)

insert_log-InOrder :
    (l : EditLogFile) (ls : List EditLogFile) → InOrder ls → InOrder (insert_log l ls)
unfolding insert_log log_lt
insert_log-InOrder l [] o = (tt, tt)
insert_log-InOrder l (m ∷ ms) o = ground (
  arith,
  lower l.first_txid m.first_txid ms,
  insert_log-BeginFrom m.first_txid l ms,
  insert_log-InOrder l ms o.1,
)

sort_logs-InOrder : (ls : List EditLogFile) → InOrder (sort_logs ls)
unfolding sort_logs
sort_logs-InOrder [] = tt
sort_logs-InOrder (l ∷ ls) = insert_log-InOrder l (sort_logs ls) (sort_logs-InOrder ls)

insert_log-Perm : (l : EditLogFile) (ls : List EditLogFile) → Perm (insert_log l ls) (l ∷ ls)
unfolding insert_log
insert_log-Perm l [] = Perm.refl (l ∷ [])
insert_log-Perm l (m ∷ ms) = elim (Bool-cases (log_lt l m)) [
  | inl e ↦ rw e (Perm.refl (l ∷ (m ∷ ms)))
  | inr e ↦ rw e (Perm.trans (Perm.cons m (insert_log-Perm l ms)) (Perm.swap l m ms))
]

sort_logs-Perm : (ls : List EditLogFile) → Perm (sort_logs ls) ls
unfolding sort_logs
sort_logs-Perm [] = Perm.nil
sort_logs-Perm (l ∷ ls) =
    Perm.trans (insert_log-Perm l (sort_logs ls)) (Perm.cons l (sort_logs-Perm ls))

sorted-InOrder : (ls ms : List EditLogFile) → sorted ls ≡ done ms → Perm ms ls × InOrder ms
sorted-InOrder ls ms h = elim (Bool-cases (has_equal ls)) [
  | inl e ↦ absurd (cc (rw e at h))
  | inr e ↦
      let same = done-injective (rw e at h) in
      (subst (λ xs. Perm xs ls) same (sort_logs-Perm ls), subst InOrder same (sort_logs-InOrder ls))
]

module _ ⦃host : Host⦄ where
  -- What getLogFiles lists are the matched logs that begin at the txid or above it or contain it,
  -- in the order of their first txids.
  pub get_log_files-InOrder :
      (s : JnStorage) (from : ℤ) (d : host.Disk) (ls : List EditLogFile)
      → get_log_files s from d ≡ done ls
      → (all : List EditLogFile) × (match_edit_logs s.current_dir d ≡ done all)
        × Perm ls (logs_from from all)
        × InOrder ls
  unfolding get_log_files
  get_log_files-InOrder s from d ls h = elim (Outcome-cases (match_edit_logs s.current_dir d)) [
    | inl (all, e) ↦
        let (perm, o) = sorted-InOrder (logs_from from all) ls (rw (get_log_files, e) at h) in
        (all, e, perm, o)
    | inr (x, e) ↦ absurd (cc (rw (get_log_files, e) at h))
  ]
