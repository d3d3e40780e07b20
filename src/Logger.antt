-- ===== src/Logger.antt =====
-- util/Logger: the messages of the program, with the filter by level and the buffer of the stream.
-- How `vfprintf` prints arguments by a format is a parameter.
pub mod Lines
use jn_server_cc.Base.{
  ℕ, ◌+◌, ◌%◌, ◌^◌, Bool, true, false, ◌||◌, List, [], ◌∷◌, ◌++◌, Option, none, some, Bytes, codes,
  ltb, ◌==◌, if◌then◌else◌, ℤ, pos, ◌+ℤ◌,
}
use jn_server_cc.Text.{print_long}

-- util/Constants.h
pub data LogLevel : Type 0 where
  log_debug log_info log_warn log_error : LogLevel

abbrev pub number : LogLevel → ℕ
number log_debug = 0
number log_info = 1
number log_warn = 2
number log_error = 3

-- A `FILE` for output: what has been written, and what waits in its buffer.
pub record FileStream : Type 0 where
  pub written : Bytes
  pub buffer : Bytes

abbrev fprint : Bytes → FileStream → FileStream
fprint text f = record f { buffer = f.buffer ++ text }

abbrev fflush : FileStream → FileStream
fflush f = record { written = f.written ++ f.buffer; buffer = [] }

pub record Logger : Type 0 where
  pub fstrm : FileStream
  pub level : LogLevel
  pub buf_msg_count_max : ℕ
  pub cur_buf_msg_count : ℕ

-- The constructor; the stream is `stderr`.
unfoldable pub new_logger : FileStream → Logger
new_logger stderr = record {
  fstrm = stderr;
  level = log_debug;
  buf_msg_count_max = 10;
  cur_buf_msg_count = 0;
}

-- `struct tm`
pub record Tm : Type 0 where
  pub tm_year : ℤ
  pub tm_mon : ℤ
  pub tm_mday : ℤ
  pub tm_hour : ℤ
  pub tm_min : ℤ
  pub tm_sec : ℤ

-- What `localtime` gives, and the microseconds of `gettimeofday`, or `none` where that fails.
pub record Clock : Type 0 where
  pub now : Tm
  pub tv_usec : Option ℤ

abbrev field : ℤ → ℕ → Bytes → Bytes
field n end rest = print_long n ++ end ∷ rest

-- `getCurrentTime`
unfoldable pub get_current_time : Clock → Bytes
get_current_time c = elim c.tv_usec [
  | none ↦ []
  | some usec ↦ field (c.now.tm_year +ℤ pos 1900) b'-' (
      field (c.now.tm_mon +ℤ pos 1) b'-' (
        field c.now.tm_mday b'-' (
          field c.now.tm_hour b':'
            (field c.now.tm_min b':' (field c.now.tm_sec b':' (field usec 9 []))))))
]

abbrev pub label : LogLevel → Bytes
label log_debug = codes "DEBUG:"
label log_info = codes "INFO:"
label log_warn = codes "WARN:"
label log_error = codes "ERROR:"

-- The test for a flush: it names every level.
abbrev flushes : LogLevel → ℕ → ℕ → Bool
flushes level count max =
    (number level == number log_error)
    || (number level == number log_warn)
    || (number level == number log_info)
    || (number level == number log_debug)
    || ltb max count

-- The calls: `debug`, `info`, `warn` and `error`, by their level, and `setLogLevel`.
pub data Entry (Args : Type 0) : Type 0 where
  message : LogLevel → Clock → Bytes → Args → Entry Args
  set_log_level : LogLevel → Entry Args

module _ {Args : Type 0} (vformat : Bytes → Args → Bytes) where
  -- `write`. The time and the level go in front of the format, and the whole is printed.
  unfoldable pub write : Clock → LogLevel → Bytes → Args → Logger → Logger
  unfolding get_current_time
  write clock level format args l =
      let text = get_current_time clock ++ (label level ++ format) in
      let f = fprint (codes "\n") (fprint (vformat text args) l.fstrm) in
      let count = (l.cur_buf_msg_count + 1) % 2 ^ 64 in
      if ltb (number level) (number l.level)
      then l
      else if flushes level count l.buf_msg_count_max
      then record l { fstrm = fflush f; cur_buf_msg_count = 0 }
      else record l { fstrm = f; cur_buf_msg_count = count }

  unfoldable pub log : Entry Args → Logger → Logger
  unfolding write
  log (message level clock format args) l = write clock level format args l
  log (set_log_level level) l = record l { level = level }

  unfoldable pub log_all : List (Entry Args) → Logger → Logger
  unfolding log
  log_all [] l = l
  log_all (e ∷ es) l = log_all es (log e l)
