-- ===== src/Tests/Files.antt =====
-- Files that are written and read again.
use jn_server_cc.Base.{
  ℕ, zero, suc, ◌+◌, drop, ap, ◌<◌, ◌^◌, ◌≡◌, ◌≢◌, refl, true, false, [], ◌∷◌, some, Bytes, codes,
  length, pos, negsuc, arith, done, bytes_eq_refl,
}
use jn_server_cc.Stream.{closed_stream, is_open, open_stream}
use mathlib.Core.List.{append-nil}
use jn_server_cc.Text.{getline_good, print_long, print_padded, strtol}
use jn_server_cc.Text.RoundTrip.{strtol-print_long, strtol-print_padded}
use jn_server_cc.Host.Memory.{memory, Files, find, put, is_file, overwrite}
use jn_server_cc.Host.Laws.{FilesKeep, WritesWork}
use jn_server_cc.LongFile.BestEffort
use jn_server_cc.LongFile.BestEffort.{BestEffortLongFile}
use jn_server_cc.EditLog.Transaction.{invalid_txid, transaction}
use jn_server_cc.EditLog.Input.{scan_text}
use jn_server_cc.EditLog.Whole.{Transactions, file_of, last_of, scan_text-file_of}
use jn_server_cc.Tests.Setup.{crc}

strtol-print_long_example : strtol (print_long (negsuc 56)) ≡ (negsuc 56, [])
strtol-print_long_example = strtol-print_long (negsuc 56) (omega arith)

strtol-print_padded_example : strtol (print_padded (pos 42)) ≡ (pos 42, [])
strtol-print_padded_example = strtol-print_padded 42 (omega arith)

pub find-put : (p s : Bytes) (d : Files) → find p (put p s d) ≡ some s
find-put p s [] = rw (bytes_eq_refl p) refl
find-put p s ((q, t) ∷ d) = ground (arith, find-put p s d)

drop_nil : (n : ℕ) → drop {A = ℕ} n [] ≡ []
drop_nil zero = refl
drop_nil (suc n) = refl

pub overwrite_empty : (s : Bytes) → overwrite 0 s [] ≡ s
overwrite_empty s = rw (drop_nil (0 + length s)) (append-nil s)

memory_write_read :
    (p s : Bytes) (d d' d'' : Files) (o : Bytes)
    → memory.open_out p d ≡ (some o, d')
    → memory.write_at o 0 s d' ≡ (true, d'')
    → (find p d'' ≡ some s) × (is_file p d'' ≡ true)
memory_write_read p s d d' d'' o h w =
    ground (arith, find-put p [] d, find-put p s (put p [] d), overwrite_empty s)

pub memory-FilesKeep : FilesKeep
memory-FilesKeep = record {
  open_regular = λ p d d' o h. ground (arith, find-put p [] d);
  write_read =
      λ p s d d' d'' o h w. let (c, e) = memory_write_read p s d d' d'' o h w in (c, ap some e);
}

written :
    (p s : Bytes) (d d' : Files) (o : Bytes)
    → memory.open_out p d ≡ (some o, d')
    → (memory.write_at o 0 s d').0 ≡ true
written p s d d' o h = ground (arith, find-put p [] d)

pub memory-WritesWork : WritesWork
memory-WritesWork = record { writes = written }

abbrev two : Transactions
two = (pos 1, codes "Data") ∷ (pos 2, codes "More") ∷ []

two_size : length (file_of crc (negsuc 56) two) < 2 ^ 32
unfolding transaction
two_size = omega arith

pub real : (n : ℕ) → pos n ≢ invalid_txid
real n e = absurd (cc e)

scan_text-file_of_example :
    scan_text (file_of crc (negsuc 56) two) ≡ done (last_of invalid_txid two)
scan_text-file_of_example =
    scan_text-file_of crc (negsuc 56) two two_size (λ b. omega arith)
      (omega arith, real 1, (omega arith, real 2, tt))

abbrev stale : BestEffortLongFile
stale = record {
  file = codes "/t";
  default_val = negsuc 12344;
  value = negsuc 0;
  opened = false;
  ostrm = closed_stream;
}

lost_value :
    (BestEffort.get stale ((codes "/t", print_padded (pos 5)) ∷ [])).0 ≡ done (negsuc 12344)
unfolding BestEffort.get getline_good print_padded is_open open_stream
lost_value = refl
