-- ===== src/LongFile/Persistent.antt =====
-- util/PersistentLongFile.h
use jn_server_cc.Base.{
  Bool, true, false, ◌||◌, not, [], ◌∷◌, ◌++◌, Option, none, some, Bytes, is_empty, if◌then◌else◌,
  ℤ, eqb_ℤ, Outcome, done, fail, error,
}
use jn_server_cc.Text.{print_long, strtol, getline}
use jn_server_cc.Host.{Host}
use jn_server_cc.Stream.{open_stream, is_open, put, close}

module _ ⦃host : Host⦄ where
  pub record PersistentLongFile : Type 0 where
    pub file : Bytes
    pub default_val : ℤ
    pub value : ℤ
    pub loaded : Bool

  unfoldable pub new_file : Bytes → ℤ → PersistentLongFile
  new_file file default_val = record {
    file = file;
    default_val = default_val;
    value = default_val;
    loaded = false;
  }

  -- `strtol` must use the whole line.
  abbrev whole_number : Option Bytes → Outcome ℤ
  whole_number none = fail error
  whole_number (some line) =
      let (val, rest) = strtol line in if is_empty rest then done val else fail error

  abbrev file_number : Option Bytes → Outcome ℤ
  file_number none = fail error
  file_number (some content) = whole_number (getline content)

  unfoldable pub read_number : Bytes → ℤ → host.Disk → Outcome ℤ
  read_number file default_val d = elim (host.is_regular file d) [
    | none ↦ fail error
    | some there ↦ if there then file_number (host.read_file file d) else done default_val
  ]

  -- Nothing checks that the text has reached the file.
  unfoldable pub write_number : Bytes → ℤ → host.Disk → Outcome (Unit {0}) × host.Disk
  write_number file val d =
      let (fos, d1) = open_stream file d in
      let (_, d2) = close (put (print_long val ++ 10 ∷ []) fos) d1 in
      if is_open fos then (done tt, d2) else (fail error, d1)

  abbrev loaded_with : PersistentLongFile → Outcome ℤ → Outcome ℤ × PersistentLongFile
  loaded_with f (done v) = (done v, record f { value = v; loaded = true })
  loaded_with f (fail e) = (fail e, f)

  unfoldable pub get : PersistentLongFile → host.Disk → Outcome ℤ × PersistentLongFile
  unfolding read_number
  get f d =
      if f.loaded then (done f.value, f) else loaded_with f (read_number f.file f.default_val d)

  abbrev stored :
      PersistentLongFile
      → ℤ
      → Outcome (Unit {0}) × host.Disk
      → Outcome (Unit {0}) × PersistentLongFile × host.Disk
  stored f v (done _, d) = (done tt, record f { value = v; loaded = true }, d)
  stored f v (fail e, d) = (fail e, f, d)

  unfoldable pub set :
      ℤ → PersistentLongFile → host.Disk → Outcome (Unit {0}) × PersistentLongFile × host.Disk
  unfolding write_number
  set v f d =
      if not (eqb_ℤ f.value v) || not f.loaded
      then stored f v (write_number f.file v d)
      else stored f v (done tt, d)
