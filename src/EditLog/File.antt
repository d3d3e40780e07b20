-- ===== src/EditLog/File.antt =====
-- src/EditLogFile: a log file with its first and last txid.
use jn_server_cc.Base.{
  Bool, true, false, ◌&&◌, not, [], ◌++◌, Bytes, codes, is_empty, if◌then◌else◌, ℤ, ltb_ℤ, leb_ℤ,
  eqb_ℤ, Outcome, done, fail, error,
}
use jn_server_cc.Host.{Host}
use jn_server_cc.EditLog.Transaction.{invalid_txid}
use jn_server_cc.EditLog.Input.{scan_log}
use jn_server_cc.Files.{replace_file}

pub record EditLogFile : Type 0 where
  pub full_file_name : Bytes
  pub first_txid : ℤ
  pub last_txid : ℤ
  pub in_progress : Bool
  pub corrupt_header : Bool

unfoldable pub new_log : Bytes → ℤ → ℤ → Bool → EditLogFile
new_log name first last in_progress = record {
  full_file_name = name;
  first_txid = first;
  last_txid = last;
  in_progress = in_progress;
  corrupt_header = false;
}

-- The default constructor: no file.
abbrev pub no_log : EditLogFile
no_log = record {
  full_file_name = [];
  first_txid = invalid_txid;
  last_txid = invalid_txid;
  in_progress = false;
  corrupt_header = false;
}

abbrev pub is_initialized : EditLogFile → Bool
is_initialized l = not (is_empty l.full_file_name)

unfoldable pub contains_txid : EditLogFile → ℤ → Bool
contains_txid l txid = leb_ℤ l.first_txid txid && leb_ℤ txid l.last_txid

-- `operator<`
unfoldable pub log_lt : EditLogFile → EditLogFile → Bool
log_lt a b =
    if ltb_ℤ a.first_txid b.first_txid
    then true
    else if ltb_ℤ b.first_txid a.first_txid
    then false
    else if ltb_ℤ a.last_txid b.last_txid
    then true
    else if ltb_ℤ b.last_txid a.last_txid
    then false
    else true

-- `operator>`
unfoldable pub log_gt : EditLogFile → EditLogFile → Bool
log_gt a b =
    if ltb_ℤ b.first_txid a.first_txid
    then true
    else if ltb_ℤ a.first_txid b.first_txid
    then false
    else if ltb_ℤ b.last_txid a.last_txid
    then true
    else if ltb_ℤ a.last_txid b.last_txid
    then false
    else true

-- `operator==`
unfoldable pub log_eq : EditLogFile → EditLogFile → Bool
log_eq a b = eqb_ℤ a.first_txid b.first_txid && eqb_ℤ a.last_txid b.last_txid

module _ ⦃host : Host⦄ where
  unfoldable pub scan : EditLogFile → host.Disk → Outcome (Unit {0}) × EditLogFile
  scan l d =
      let (r, last, corrupt) = scan_log l.full_file_name d (l.last_txid, l.corrupt_header) in
      (r, record l { last_txid = last; corrupt_header = corrupt })

  unfoldable pub rename_self :
      Bytes → EditLogFile → host.Disk → Outcome (Unit {0}) × EditLogFile × host.Disk
  rename_self suffix l d =
      let (moved, d') = replace_file l.full_file_name (l.full_file_name ++ suffix) d in
      if moved
      then (done tt, record l { full_file_name = l.full_file_name ++ suffix }, d')
      else (fail error, l, d')

  unfoldable pub move_aside_empty_file :
      EditLogFile → host.Disk → Outcome (Unit {0}) × EditLogFile × host.Disk
  unfolding rename_self
  move_aside_empty_file = rename_self (codes ".empty")

  unfoldable pub move_aside_corrupt_file :
      EditLogFile → host.Disk → Outcome (Unit {0}) × EditLogFile × host.Disk
  unfolding rename_self
  move_aside_corrupt_file = rename_self (codes ".corrupt")

  unfoldable pub move_aside_trash_file :
      EditLogFile → host.Disk → Outcome (Unit {0}) × EditLogFile × host.Disk
  unfolding rename_self
  move_aside_trash_file = rename_self (codes ".trash")
