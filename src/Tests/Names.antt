-- ===== src/Tests/Names.antt =====
-- The patterns over the files in memory, and names that match them.
use jn_server_cc.Text.{strtol}
use jn_server_cc.Base.{
  List, done, ◌≡◌, refl, true, false, [], ◌∷◌, ◌++◌, some, Bytes, codes, is_empty, pos, arith,
}
use jn_server_cc.Text.RoundTrip.{all_digits}
use jn_server_cc.Host.Memory.{memory, Files, digits}
use jn_server_cc.Host.Patterns.{IsNumber, PatternsMatch}
use jn_server_cc.Files.{
  get_in_progress_edits_file_name, get_finalized_edits_file_name, get_in_progress_edits_file,
  get_finalized_edits_file,
}
use jn_server_cc.EditLog.Transaction.{invalid_txid}
use jn_server_cc.EditLog.File.{EditLogFile, new_log}
use jn_server_cc.Manager.{log_of_name, match_edit_logs}
use jn_server_cc.Manager.Names.{log_of_name_given}

digits_end : (a : Bytes) → all_digits a ≡ true → digits a ≡ (a, [])
digits_end [] h = refl
digits_end (c ∷ a) h = ground (arith, digits_end a)

digits_dash : (a r : Bytes) → all_digits a ≡ true → digits (a ++ b'-' ∷ r) ≡ (a, b'-' ∷ r)
digits_dash [] r h = refl
digits_dash (c ∷ a) r h = ground (arith, digits_dash a r)

filled : (a : Bytes) → IsNumber a → is_empty a ≡ false
filled [] h = absurd (h.1 refl)
filled (c ∷ a) h = refl

memory-PatternsMatch : PatternsMatch
memory-PatternsMatch = record {
  finalized = λ a b ha hb.
      rw (digits_dash a b ha.0, filled a ha, digits_end b hb.0, filled b hb, digits_dash a b ha.0)
        refl;
  in_progress = λ a ha. rw (digits_end a ha.0, filled a ha) refl;
  not_finalized = λ a. refl;
}

log_of_name_given_example :
    (log_of_name (codes "/d") (get_finalized_edits_file_name (pos 1) (pos 7))
      ≡ some
          (new_log (get_finalized_edits_file (codes "/d") (pos 1) (pos 7)) (pos 1) (pos 7) false))
    × (log_of_name (codes "/d") (get_in_progress_edits_file_name (pos 1))
        ≡ some
            (new_log (get_in_progress_edits_file (codes "/d") (pos 1)) (pos 1) invalid_txid true))
log_of_name_given_example =
    log_of_name_given memory-PatternsMatch (codes "/d") 1 7 (omega arith) (omega arith)

abbrev listed : Files
listed =
    (codes "/jn/current/edits_4-9", [])
    ∷ (codes "/jn/current/edits_1-3", [])
    ∷ (codes "/jn/current/VERSION", [])
    ∷ []

abbrev found : List EditLogFile
found =
    new_log (codes "/jn/current/edits_4-9") (pos 4) (pos 9) false
    ∷ new_log (codes "/jn/current/edits_1-3") (pos 1) (pos 3) false
    ∷ []

logs_found : match_edit_logs (codes "/jn/current") listed ≡ done found
unfolding match_edit_logs strtol
logs_found = refl
