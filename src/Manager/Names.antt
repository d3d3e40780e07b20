-- ===== src/Manager/Names.antt =====
-- The names that the manager gives to the logs are the ones that it finds them by.
use jn_server_cc.Base.{ℕ, ◌≤◌, ◌≡◌, refl, true, false, some, Bytes, pos}
use jn_server_cc.Text.{print_padded, long_max}
use jn_server_cc.Text.RoundTrip.{
  strtol-print_padded, print_padded-all_digits, print_padded_nonempty,
}
use jn_server_cc.Host.{Host}
use jn_server_cc.Host.Patterns.{IsNumber, PatternsMatch}
use jn_server_cc.Files.{
  get_in_progress_edits_file_name, get_finalized_edits_file_name, get_in_progress_edits_file,
  get_finalized_edits_file,
}
use jn_server_cc.EditLog.Transaction.{invalid_txid}
use jn_server_cc.EditLog.File.{new_log}
use jn_server_cc.Manager.{log_of_name}

print_padded-IsNumber : (n : ℕ) → IsNumber (print_padded (pos n))
print_padded-IsNumber n = (print_padded-all_digits n, print_padded_nonempty n)

module _ ⦃host : Host⦄ where
  log_of_name_finalized :
      (patterns : PatternsMatch) (dir : Bytes) (start end : ℕ)
      → start ≤ long_max
      → end ≤ long_max
      → log_of_name dir (get_finalized_edits_file_name (pos start) (pos end))
        ≡ some (
            new_log
              (get_finalized_edits_file dir (pos start) (pos end))
              (pos start)
              (pos end)
              false)
  unfolding log_of_name get_finalized_edits_file_name get_finalized_edits_file
  log_of_name_finalized patterns dir start end hs he =
      rw
        (
          log_of_name,
          patterns.finalized (print_padded (pos start)) (print_padded (pos end))
              (print_padded-IsNumber start) (print_padded-IsNumber end),
          strtol-print_padded start hs,
          strtol-print_padded end he,
        )
        refl

  log_of_name_in_progress :
      (patterns : PatternsMatch) (dir : Bytes) (start : ℕ)
      → start ≤ long_max
      → log_of_name dir (get_in_progress_edits_file_name (pos start))
        ≡ some (new_log (get_in_progress_edits_file dir (pos start)) (pos start) invalid_txid true)
  unfolding log_of_name get_in_progress_edits_file_name get_in_progress_edits_file
  log_of_name_in_progress patterns dir start hs =
      rw
        (
          log_of_name,
          patterns.not_finalized (print_padded (pos start)),
          patterns.in_progress (print_padded (pos start)) (print_padded-IsNumber start),
          strtol-print_padded start hs,
        )
        refl

  -- Where the patterns match as boost::regex documents, the name that a finalized segment is
  -- given is recognised as a finalized log in its directory with the two txids it was made from,
  -- and the name of a segment that is being written as a log in progress with its first txid and
  -- no last txid, for all txids that are a long and not negative.
  pub log_of_name_given :
      (patterns : PatternsMatch) (dir : Bytes) (start end : ℕ)
      → start ≤ long_max
      → end ≤ long_max
      → (log_of_name dir (get_finalized_edits_file_name (pos start) (pos end))
          ≡ some (
              new_log
                (get_finalized_edits_file dir (pos start) (pos end))
                (pos start)
                (pos end)
                false))
        × (log_of_name dir (get_in_progress_edits_file_name (pos start))
            ≡ some (
                new_log (get_in_progress_edits_file dir (pos start)) (pos start) invalid_txid true))
  log_of_name_given patterns dir start end hs he = (
    log_of_name_finalized patterns dir start end hs he,
    log_of_name_in_progress patterns dir start hs,
  )
