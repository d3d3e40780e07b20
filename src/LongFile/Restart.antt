-- ===== src/LongFile/Restart.antt =====
-- What a new object reads from the file that an earlier one has written.
use jn_server_cc.Base.{◌≡◌, refl, true, false, [], ◌∷◌, ◌++◌, some, Bytes, is_empty, ℤ, arith, done}
use jn_server_cc.Text.{print_long, print_padded, line_of, getline, getline_good}
use jn_server_cc.Text.RoundTrip.{
  IsLong, strtol-print_long, line_of-newline, line_of_end, print_long-no_newline,
  print_padded-no_newline,
}
use jn_server_cc.Host.{Host}
use jn_server_cc.LongFile.Persistent.{read_number}
use jn_server_cc.LongFile.BestEffort
use jn_server_cc.LongFile.BestEffort.{BestEffortLongFile, initial_value, lazy_open}

pub is_empty_newline : (s : Bytes) → is_empty (s ++ 10 ∷ []) ≡ false
is_empty_newline [] = refl
is_empty_newline (c ∷ s) = refl

getline_newline : (s : Bytes) → getline (s ++ 10 ∷ []) ≡ some ((line_of (s ++ 10 ∷ [])).0)
unfolding getline
getline_newline [] = refl
getline_newline (c ∷ s) = refl

getline-print_long : (v : ℤ) → getline (print_long v ++ 10 ∷ []) ≡ some (print_long v)
getline-print_long v =
    rw (getline_newline (print_long v), line_of-newline (print_long v) (print_long-no_newline v))

initial_value-print_padded :
    (default_val v : ℤ) → initial_value default_val (some (print_padded v)) ≡ done default_val
unfolding initial_value getline_good
initial_value-print_padded default_val v =
    rw (line_of_end (print_padded v) (print_padded-no_newline v))

module _ ⦃host : Host⦄ where
  pub read_number_lem :
      (p : Bytes) (default_val v : ℤ) (d : host.Disk)
      → IsLong v
      → host.is_regular p d ≡ some true
      → host.read_file p d ≡ some (print_long v ++ 10 ∷ [])
      → read_number p default_val d ≡ done v
  unfolding read_number
  read_number_lem p default_val v d long there content =
      ground (arith, getline-print_long v, strtol-print_long v long)

  -- A BestEffortLongFile that is not open, over a file that holds what set writes, gets its
  -- default value, whatever value was set, if it gets any.
  get_restart_lost :
      (f : BestEffortLongFile) (v w : ℤ) (d : host.Disk)
      → f.opened ≡ false
      → host.read_file f.file d ≡ some (print_padded v)
      → (BestEffort.get f d).0 ≡ done w
      → w ≡ f.default_val
  unfolding BestEffort.get lazy_open
  get_restart_lost f v w d fresh content h =
      ground (arith, initial_value-print_padded f.default_val v)
