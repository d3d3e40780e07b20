-- ===== src/Host.antt =====
-- What the program calls and does not implement, as a parameter: the files of the operating system,
-- boost::filesystem, boost::regex, the protocol buffers, libcurl and the property files of Ice.
-- A call may fail whatever the state is; what a call guarantees is a hypothesis of the theorems that
-- rely on it (`Host/Laws.antt`).
pub mod Laws
pub mod Appending
pub mod Patterns
pub mod Memory
use jn_server_cc.Base.{ℕ, Bool, Option, List, Bytes, ℤ}
use jn_server_cc.Messages.{PaxosData}

pub record Host : Type 1 where
  -- The files and whatever else the calls depend on, and the files that are open for writing.
  pub Disk : Type 0
  pub Handle : Type 0
  -- Reading a whole file: `none` where it cannot be opened.
  pub read_file : Bytes → Disk → Option Bytes
  -- Opening for writing creates the file or empties it: `none` where that fails.
  pub open_out : Bytes → Disk → Option Handle × Disk
  -- Writing at an offset of an open file, and closing it; `false` where it fails.
  pub write_at : Handle → ℕ → Bytes → Disk → Bool × Disk
  pub close_out : Handle → Disk → Disk
  -- boost::filesystem; `none` or `false` where it throws.
  pub is_regular : Bytes → Disk → Option Bool
  pub is_directory : Bytes → Disk → Option Bool
  pub exists : Bytes → Disk → Option Bool
  pub rename : Bytes → Bytes → Disk → Bool × Disk
  pub remove : Bytes → Disk → Bool × Disk
  pub remove_all : Bytes → Disk → Bool × Disk
  -- Whether directories were made; `none` where it throws.
  pub create_directories : Bytes → Disk → Option Bool × Disk
  -- Whether a path has a root directory.
  pub has_root_directory : Bytes → Bool
  -- The names of the regular files of a directory, as the directory iterator gives them.
  pub regular_files : Bytes → Disk → Option (List Bytes)
  -- `open` of a lock file, `fcntl` with F_SETLK (`true` where it fails), `close` and `errno`.
  pub open_lock : Bytes → Disk → ℤ × Disk
  pub set_lock : ℤ → Disk → Bool × Disk
  pub close_lock : ℤ → Disk → Disk
  pub errno : Disk → ℤ
  -- boost::regex_match with FINALIZED_PATTERN and IN_PROGRESS_PATTERN: the captured texts.
  pub match_finalized : Bytes → Option (Bytes × Bytes)
  pub match_in_progress : Bytes → Option Bytes
  -- SerializeToOstream and ParseFromIstream.
  pub serialize : PaxosData → Option Bytes
  pub parse : Bytes → Option PaxosData
  -- A download: what arrives, and the response code unless an exception ends it.
  pub fetch : Bytes → Disk → Bytes × Option ℕ × Disk
  -- A property of a file of properties; empty where it is absent.
  pub property : Bytes → Bytes → Bytes
