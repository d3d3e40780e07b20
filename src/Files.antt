-- ===== src/Files.antt =====
-- util/JNServiceMiscUtils: the names of the files, the calls of boost::filesystem that turn an
-- exception into a return code, the lock file, and host:port pairs.
pub mod Pairs
use jn_server_cc.Base.{
  ℕ, zero, suc, Bool, true, false, ◌&&◌, not, [], ◌∷◌, ◌++◌, Option, none, some, Bytes, codes, ◌==◌,
  is_empty, if◌then◌else◌, ℤ, pos, negsuc, ltb_ℤ, ◌-ℤ◌, Outcome, done, fail, error,
}
use jn_server_cc.Text.{print_padded, atoi, is_digit}
use jn_server_cc.Host.{Host}

-- EDITS_INPROGRESS and EDITS
abbrev pub edits_inprogress : Bytes
edits_inprogress = codes "edits_inprogress"

abbrev pub edits : Bytes
edits = codes "edits"

unfoldable pub get_name_node_file_name : Bytes → ℤ → Bytes
get_name_node_file_name prefix txid = prefix ++ (codes "_" ++ print_padded txid)

unfoldable pub get_in_progress_edits_file_name : ℤ → Bytes
unfolding get_name_node_file_name
get_in_progress_edits_file_name start = get_name_node_file_name edits_inprogress start

unfoldable pub get_in_progress_edits_file : Bytes → ℤ → Bytes
unfolding get_in_progress_edits_file_name
get_in_progress_edits_file dir start = dir ++ (codes "/" ++ get_in_progress_edits_file_name start)

unfoldable pub get_finalized_edits_file_name : ℤ → ℤ → Bytes
get_finalized_edits_file_name start end =
    edits ++ (codes "_" ++ (print_padded start ++ (codes "-" ++ print_padded end)))

unfoldable pub get_finalized_edits_file : Bytes → ℤ → ℤ → Bytes
unfolding get_finalized_edits_file_name
get_finalized_edits_file dir start end =
    dir ++ (codes "/" ++ get_finalized_edits_file_name start end)

-- HostPortPair: the text before the first colon, and the number that `atoi` reads after it. With no
-- colon `substr(npos + 1)` is the whole text.
abbrev pub split_colon : Bytes → Option (Bytes × Bytes)
split_colon [] = none
split_colon (c ∷ s) =
    let rest = split_colon s in
    if c == b':' then some ([], s) else elim rest [ none ↦ none | some (a, b) ↦ some (c ∷ a, b) ]

pub record HostPortPair : Type 0 where
  pub hostname : Bytes
  pub port : ℤ

unfoldable pub host_port_pair : Bytes → HostPortPair
host_port_pair name = elim (split_colon name) [
  | none ↦ record { hostname = name; port = atoi name }
  | some (a, b) ↦ record { hostname = a; port = atoi b }
]

abbrev digits_only : Bytes → Bool
digits_only [] = true
digits_only (c ∷ s) = is_digit c && digits_only s

-- `isValid`: a colon that is not the first character, and nothing but digits behind it.
unfoldable pub is_valid_pair : Bytes → Bool
is_valid_pair name = elim (split_colon name) [
  | none ↦ false
  | some (a, b) ↦ not (is_empty a) && digits_only b
]

module _ ⦃host : Host⦄ where
  -- `is_absolute_path`: whether the root directory of the path is not empty.
  unfoldable pub is_absolute_path : Bytes → Bool
  is_absolute_path path = host.has_root_directory path

  -- The argument of a call of `file_exists` whose code is ignored stays as it was.
  unfoldable pub file_exists : Bytes → host.Disk → Outcome Bool
  file_exists name d = elim (host.is_regular name d) [ none ↦ fail error | some b ↦ done b ]

  unfoldable pub dir_exists : Bytes → host.Disk → Outcome Bool
  dir_exists name d = elim (host.is_directory name d) [ none ↦ fail error | some b ↦ done b ]

  unfoldable pub file_rename : Bytes → Bytes → host.Disk → Bool × host.Disk
  file_rename from to d = host.rename from to d

  unfoldable pub file_delete : Bytes → host.Disk → Bool × host.Disk
  file_delete name d = host.remove name d

  -- The retries of `replaceFile`: a round ends the loop unless the target is there and cannot be
  -- deleted. What the loop waits between two rounds is not modelled.
  unfoldable pub clear_target : ℕ → Bytes → host.Disk → host.Disk
  unfolding file_delete
  clear_target zero target d = d
  clear_target (suc retries) target d =
      let (deleted, d') = file_delete target d in
      elim (host.is_regular target d) [
        | none ↦ d
        | some there ↦ elim there [
          | false ↦ d
          | true ↦ elim deleted [ true ↦ d' | false ↦ clear_target retries target d' ]
        ]
      ]

  -- `replaceFile`, with its five rounds.
  unfoldable pub replace_file : Bytes → Bytes → host.Disk → Bool × host.Disk
  unfolding clear_target file_rename
  replace_file src target d = file_rename src target (clear_target 5 target d)

  abbrev negated : ℤ → ℤ
  negated err = if ltb_ℤ (pos 0) err then pos 0 -ℤ err else negsuc 0

  -- The file descriptor, or a negative number.
  unfoldable pub try_to_acquire_lockfile : Bytes → host.Disk → ℤ × host.Disk
  unfolding ◌-ℤ◌
  try_to_acquire_lockfile name d =
      let (fd, d1) = host.open_lock name d in
      let (refused, d2) = host.set_lock fd d1 in
      if ltb_ℤ fd (pos 0)
      then (negated (host.errno d1), d1)
      else if refused
      then (negated (host.errno d2), host.close_lock fd d2)
      else (fd, d2)
