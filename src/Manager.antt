-- ===== src/Manager.antt =====
-- src/FileJournalManager: the log files of a journal's `current` directory. `std::sort` is an
-- insertion by `operator<`; on two logs with the same two txids it is undefined.
pub mod Names
pub mod Sorting
use jn_server_cc.Base.{
  Bool, true, false, ◌&&◌, ◌||◌, not, List, [], ◌∷◌, ◌++◌, Option, none, some, Bytes, codes,
  bytes_eq, if◌then◌else◌, ℤ, ltb_ℤ, leb_ℤ, eqb_ℤ, Outcome, done, fail, error, undefined,
}
use jn_server_cc.Text.{strtol}
use jn_server_cc.Host.{Host}
use jn_server_cc.Files.{
  get_in_progress_edits_file, get_finalized_edits_file, file_exists, file_rename,
}
use jn_server_cc.Storage.{JnStorage}
use jn_server_cc.EditLog.Transaction.{invalid_txid}
use jn_server_cc.EditLog.Output.{OutputStream, new_stream, create}
use jn_server_cc.EditLog.File.{EditLogFile, new_log, no_log, contains_txid, log_lt}

unfoldable pub insert_log : EditLogFile → List EditLogFile → List EditLogFile
insert_log l [] = l ∷ []
insert_log l (m ∷ ms) = if log_lt l m then l ∷ (m ∷ ms) else m ∷ insert_log l ms

-- `sort(ret.begin(), ret.end())`
unfoldable pub sort_logs : List EditLogFile → List EditLogFile
unfolding insert_log
sort_logs [] = []
sort_logs (l ∷ ls) = insert_log l (sort_logs ls)

-- Each of two logs is less than the other: they are equal.
abbrev among : EditLogFile → List EditLogFile → Bool
among l [] = false
among l (m ∷ ms) = let rest = among l ms in (log_lt l m && log_lt m l) || rest

abbrev pub has_equal : List EditLogFile → Bool
has_equal [] = false
has_equal (l ∷ ls) = let rest = has_equal ls in among l ls || rest

-- Where logs are equal, the order is not one that `sort` may be called with: undefined behaviour.
abbrev pub sorted : List EditLogFile → Outcome (List EditLogFile)
sorted ls = if has_equal ls then fail undefined else done (sort_logs ls)

-- The choice of `getRemoteEditLogs`, with the file name taken out.
abbrev pub is_remote : ℤ → Bool → EditLogFile → Bool
is_remote first in_progress_ok l =
    if l.corrupt_header || (not in_progress_ok && l.in_progress)
    then false
    else if leb_ℤ first l.first_txid
    then true
    else ltb_ℤ l.first_txid first && leb_ℤ first l.last_txid

abbrev pub remote_log : EditLogFile → EditLogFile
remote_log l = record {
  full_file_name = codes " ";
  first_txid = l.first_txid;
  last_txid = l.last_txid;
  in_progress = l.in_progress;
  corrupt_header = false;
}

unfoldable pub remote_logs : ℤ → Bool → List EditLogFile → List EditLogFile
remote_logs first ok [] = []
remote_logs first ok (l ∷ ls) =
    let rest = remote_logs first ok ls in if is_remote first ok l then remote_log l ∷ rest else rest

-- The choice of `getLogFiles`.
unfoldable pub logs_from : ℤ → List EditLogFile → List EditLogFile
logs_from from [] = []
logs_from from (l ∷ ls) =
    let rest = logs_from from ls in
    if leb_ℤ from l.first_txid || contains_txid l from then l ∷ rest else rest

unfoldable pub logs_at : ℤ → List EditLogFile → List EditLogFile
logs_at start [] = []
logs_at start (l ∷ ls) =
    let rest = logs_at start ls in if eqb_ℤ l.first_txid start then l ∷ rest else rest

-- No file, the one file, or an error.
unfoldable pub only_log : List EditLogFile → Outcome EditLogFile
only_log [] = done no_log
only_log (l ∷ []) = done l
only_log (l ∷ (m ∷ ls)) = fail error

pub record FileJournalManager : Type 0 where
  pub current_in_progress : Bytes

module _ ⦃host : Host⦄ where
  -- The log that a file name stands for. That the regex library gives up on a name is not modelled.
  unfoldable pub log_of_name : Bytes → Bytes → Option EditLogFile
  log_of_name dir name = elim (host.match_finalized name) [
    | some (start, end) ↦
        some (new_log (dir ++ (codes "/" ++ name)) ((strtol start).0) ((strtol end).0) false)
    | none ↦ elim (host.match_in_progress name) [
      | some start ↦
          some (new_log (dir ++ (codes "/" ++ name)) ((strtol start).0) invalid_txid true)
      | none ↦ none
    ]
  ]

  unfoldable pub logs_of_names : Bytes → List Bytes → List EditLogFile
  unfolding log_of_name
  logs_of_names dir [] = []
  logs_of_names dir (n ∷ ns) =
      let rest = logs_of_names dir ns in
      elim (log_of_name dir n) [ none ↦ rest | some l ↦ l ∷ rest ]

  -- `matchEditLogs`
  unfoldable pub match_edit_logs : Bytes → host.Disk → Outcome (List EditLogFile)
  unfolding logs_of_names
  match_edit_logs dir d = elim (host.regular_files dir d) [
    | none ↦ fail error
    | some names ↦ done (logs_of_names dir names)
  ]

  unfoldable pub get_remote_edit_logs :
      JnStorage → ℤ → Bool → host.Disk → Outcome (List EditLogFile)
  unfolding match_edit_logs remote_logs sort_logs
  get_remote_edit_logs s first ok d = elim (match_edit_logs s.current_dir d) [
    | fail e ↦ fail e
    | done logs ↦ sorted (remote_logs first ok logs)
  ]

  unfoldable pub get_log_files : JnStorage → ℤ → host.Disk → Outcome (List EditLogFile)
  unfolding match_edit_logs logs_from sort_logs
  get_log_files s from d = elim (match_edit_logs s.current_dir d) [
    | fail e ↦ fail e
    | done logs ↦ sorted (logs_from from logs)
  ]

  unfoldable pub get_log_file : JnStorage → ℤ → host.Disk → Outcome EditLogFile
  unfolding match_edit_logs logs_at only_log
  get_log_file s start d = elim (match_edit_logs s.current_dir d) [
    | fail e ↦ fail e
    | done logs ↦ only_log (logs_at start logs)
  ]

  -- The stream is the caller's new segment also where its header could not be written.
  unfoldable pub start_log_segment :
      JnStorage
      → ℤ
      → ℤ
      → host.Disk
      → Outcome (Unit {0}) × FileJournalManager × OutputStream × host.Disk
  start_log_segment s txid layout_version d =
      let file = get_in_progress_edits_file s.current_dir txid in
      let (o, d1) = new_stream file d in
      let (created, o', d2) = create layout_version o d1 in
      (if created then done tt else fail error, record { current_in_progress = file }, o', d2)

  unfoldable pub finalize_log_segment :
      JnStorage
      → ℤ
      → ℤ
      → FileJournalManager
      → host.Disk
      → Outcome (Unit {0}) × FileJournalManager × host.Disk
  finalize_log_segment s first last m d =
      let src = get_in_progress_edits_file s.current_dir first in
      let dst = get_finalized_edits_file s.current_dir first last in
      let (renamed, d') = file_rename src dst d in
      elim (file_exists dst d) [
        | fail e ↦ (fail e, m, d)
        | done there ↦
            if there
            then (fail error, m, d)
            else if renamed
            then (
              done tt,
              if bytes_eq src m.current_in_progress then record { current_in_progress = [] } else m,
              d',
            )
            else (fail error, m, d')
      ]
