-- ===== src/Tests/Leaving.antt =====
-- The files in memory leave the file of a decision alone.
use mathlib.Core.List.{append_assoc}
use jn_server_cc.Base.{
  Option-cases, inl, inr, ℕ, ◌≡◌, ◌≢◌, refl, sym, ◌∙◌, true, [], ◌∷◌, ◌++◌, some, Bytes,
  eq_of_bytes_eq, codes, pos, arith,
}
use jn_server_cc.Host.Memory.{memory, Files, find, put, delete}
use jn_server_cc.Host.Laws.{DecisionsKeep, LeavesAlone}
use jn_server_cc.Messages.{PaxosData}
use jn_server_cc.Storage.{
  JnStorage, get_sync_log_temporary_file, get_in_progress_edit_log, get_paxos_file, get_paxos_dir,
}
use jn_server_cc.Files.{get_in_progress_edits_file}
use jn_server_cc.Text.{print_long}
use jn_server_cc.Tests.Files.{find-put}

find-put_ne : (p q s : Bytes) (d : Files) → p ≢ q → find p (put q s d) ≡ find p d
find-put_ne p q s [] h = ground (arith, h, eq_of_bytes_eq q p)
find-put_ne p q s ((r, t) ∷ d) h =
    ground (arith, find-put_ne p q s d h, eq_of_bytes_eq r q, eq_of_bytes_eq r p)

pub find-delete_ne : (p q : Bytes) (d : Files) → p ≢ q → find p (delete q d) ≡ find p d
find-delete_ne p q [] h = refl
find-delete_ne p q ((r, t) ∷ d) h =
    ground (arith, find-delete_ne p q d h, eq_of_bytes_eq r q, eq_of_bytes_eq r p)

find-move_ne :
    (a b f : Bytes) (d : Files) → f ≢ a → f ≢ b → find f (memory.rename a b d).1 ≡ find f d
find-move_ne a b f d ha hb = elim (Option-cases (find a d)) [
  | inl e ↦ ground arith
  | inr (s, e) ↦ ground (arith, find-put_ne f b s (delete a d) hb ∙ find-delete_ne f a d ha)
]

pub regular_of :
    (f : Bytes) (d d' : Files)
    → find f d ≡ find f d'
    → memory.is_regular f d ≡ memory.is_regular f d'
regular_of f d d' e = ground arith

second_of : (x y : ℕ) (xs ys : Bytes) → 47 ∷ x ∷ xs ≡ 47 ∷ y ∷ ys → x ≡ y
second_of x y xs ys h = cc h

pub apart_names : (xs ys : Bytes) → 47 ∷ 112 ∷ xs ≢ 47 ∷ 101 ∷ ys
apart_names xs ys h = absurd (omega (arith, second_of 112 101 xs ys h))

pub append_ne : (dir x y : Bytes) → x ≢ y → dir ++ x ≢ dir ++ y
append_ne [] x y h e = h e
append_ne (c ∷ dir) x y h e = append_ne dir x y h (cc e)

flag_read : (p : PaxosData) (t : Bytes) → memory.serialize p ≡ some t → memory.parse t ≡ some p
flag_read p t h = ground arith

moved :
    (a b t : Bytes) (d d' : Files)
    → memory.rename a b d ≡ (true, d')
    → find a d ≡ some t
    → (find b d' ≡ some t) × (memory.is_regular b d' ≡ some true)
moved a b t d d' h e = ground (arith, find-put b t (delete a d))

pub decisions : DecisionsKeep
decisions = record { renamed = moved; parsed = flag_read }

-- The paths of the decision and of the segment, behind the directory.
paxos_path :
    (s : JnStorage)
    → get_paxos_file s (pos 1)
      ≡ s.current_dir ++ (codes "/paxos" ++ (codes "/" ++ print_long (pos 1)))
unfolding get_paxos_file get_paxos_dir
paxos_path s = append_assoc s.current_dir (codes "/paxos") _

apart :
    (s : JnStorage) (rest : Bytes)
    → get_paxos_file s (pos 1) ≢ s.current_dir ++ (codes "/edits" ++ rest)
apart s rest e =
    append_ne s.current_dir (codes "/paxos" ++ (codes "/" ++ print_long (pos 1)))
      (codes "/edits" ++ rest) (apart_names _ _) (sym (paxos_path s) ∙ e)

segment_apart : (s : JnStorage) → get_paxos_file s (pos 1) ≢ get_in_progress_edit_log s (pos 1)
unfolding get_in_progress_edit_log get_in_progress_edits_file
segment_apart s e = apart s _ e

temporary_apart :
    (s : JnStorage) → get_paxos_file s (pos 1) ≢ get_sync_log_temporary_file s (pos 1) (pos 3)
unfolding get_sync_log_temporary_file get_in_progress_edit_log get_in_progress_edits_file
temporary_apart s e = apart s _ (e ∙ append_assoc s.current_dir _ _)

pub left_alone :
    (s : JnStorage)
    → LeavesAlone
        (get_sync_log_temporary_file s (pos 1) (pos 3))
        (get_in_progress_edit_log s (pos 1))
        (get_paxos_file s (pos 1))
left_alone s =
    let f = get_paxos_file s (pos 1) in
    let to = get_in_progress_edit_log s (pos 1) in
    let from = get_sync_log_temporary_file s (pos 1) (pos 3) in
    record {
      removed = λ d.
          let e = find-delete_ne f to d (segment_apart s) in (e, regular_of f (delete to d) d e);
      renamed = λ d.
          let e = find-move_ne from to f d (temporary_apart s) (segment_apart s) in
          (e, regular_of f (memory.rename from to d).1 d e);
    }
