-- ===== src/LongFile/BestEffort.antt =====
-- util/BestEffortLongFile.h
use jn_server_cc.Base.{
  Bool, true, false, not, Option, none, some, Bytes, is_empty, if◌then◌else◌, ℤ, negsuc, length,
  ◌==◌, Outcome, done, fail, error,
}
use jn_server_cc.Text.{print_padded, strtol, getline_good, c_string}
use jn_server_cc.Host.{Host}
use jn_server_cc.Stream
use jn_server_cc.Stream.{Ofstream, closed_stream, open_stream, is_open, put, seek_start, flush}

-- A line of 19 characters that are a number.
abbrev line_number : ℤ → Bytes → Outcome ℤ
line_number default_val line =
    let (val, rest) = strtol line in
    if is_empty line
    then done default_val
    else if not (length line == 19)
    then fail error
    else if is_empty rest
    then done val
    else fail error

abbrev good_line : ℤ → Option Bytes → Outcome ℤ
good_line default_val none = done default_val
good_line default_val (some line) = line_number default_val (c_string line)

-- The value that the file gives as it is first looked at.
unfoldable pub initial_value : ℤ → Option Bytes → Outcome ℤ
initial_value default_val none = done default_val
initial_value default_val (some content) = good_line default_val (getline_good content)

module _ ⦃host : Host⦄ where
  pub record BestEffortLongFile : Type 0 where
    pub file : Bytes
    pub default_val : ℤ
    pub value : ℤ
    pub opened : Bool
    pub ostrm : Ofstream

  unfoldable pub new_file : Bytes → ℤ → BestEffortLongFile
  new_file file default_val = record {
    file = file;
    default_val = default_val;
    value = negsuc 0;
    opened = false;
    ostrm = closed_stream;
  }

  abbrev open_with :
      BestEffortLongFile
      → host.Disk
      → Outcome ℤ
      → Outcome (Unit {0}) × BestEffortLongFile × host.Disk
  open_with f d (fail e) = (fail e, f, d)
  open_with f d (done v) =
      let (strm, d') = open_stream f.file d in
      if is_open strm
      then (done tt, record f { value = v; opened = true; ostrm = strm }, d')
      else (fail error, record f { value = v; ostrm = strm }, d')

  unfoldable pub lazy_open :
      BestEffortLongFile → host.Disk → Outcome (Unit {0}) × BestEffortLongFile × host.Disk
  unfolding initial_value
  lazy_open f d =
      if f.opened
      then (done tt, f, d)
      else open_with f d (initial_value f.default_val (host.read_file f.file d))

  abbrev value_of :
      Outcome (Unit {0}) × BestEffortLongFile × host.Disk
      → Outcome ℤ × BestEffortLongFile × host.Disk
  value_of (done _, f, d) = (done f.value, f, d)
  value_of (fail e, f, d) = (fail e, f, d)

  unfoldable pub get : BestEffortLongFile → host.Disk → Outcome ℤ × BestEffortLongFile × host.Disk
  unfolding lazy_open
  get f d = value_of (lazy_open f d)

  abbrev write_value :
      ℤ
      → Outcome (Unit {0}) × BestEffortLongFile × host.Disk
      → Outcome (Unit {0}) × BestEffortLongFile × host.Disk
  write_value v (done _, f, d) =
      let (s1, d1) = seek_start f.ostrm d in
      let (s2, d2) = flush (put (print_padded v) s1) d1 in
      (done tt, record f { value = v; ostrm = s2 }, d2)
  write_value v (fail e, f, d) = (fail e, f, d)

  -- The value is cached whether or not the write succeeds.
  unfoldable pub set :
      ℤ → BestEffortLongFile → host.Disk → Outcome (Unit {0}) × BestEffortLongFile × host.Disk
  unfolding lazy_open
  set v f d = write_value v (lazy_open f d)

  -- `close`; what is closed already stays as it is.
  unfoldable pub close :
      BestEffortLongFile → host.Disk → Outcome (Unit {0}) × BestEffortLongFile × host.Disk
  close f d =
      let (s, d') = Stream.close f.ostrm d in
      if is_open f.ostrm
      then (if s.failed then fail error else done tt, record f { ostrm = s }, d')
      else (done tt, f, d)

  -- The destructor closes the stream, whatever comes of it.
  unfoldable pub destroy : BestEffortLongFile → host.Disk → host.Disk
  destroy f d = if is_open f.ostrm then (Stream.close f.ostrm d).1 else d
