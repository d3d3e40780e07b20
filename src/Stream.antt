-- ===== src/Stream.antt =====
-- `std::ofstream` over an open file: a buffer that `flush` hands to the file, and the failure state,
-- which stays once it is set.
use jn_server_cc.Base.{
  ℕ, ◌+◌, Bool, true, false, ◌||◌, not, [], ◌++◌, Option, none, some, Bytes, length, is_empty,
  if◌then◌else◌,
}
use jn_server_cc.Host.{Host}

module _ ⦃host : Host⦄ where
  pub record Ofstream : Type 0 where
    pub file : Option host.Handle
    pub position : ℕ
    pub buffer : Bytes
    pub failed : Bool

  abbrev pub closed_stream : Ofstream
  closed_stream = record { file = none; position = 0; buffer = []; failed = false }

  opened : Option host.Handle → Ofstream
  opened none = record { file = none; position = 0; buffer = []; failed = true }
  opened (some o) = record { file = some o; position = 0; buffer = []; failed = false }

  -- `ofstream(filename)` and `open(filename)`
  unfoldable pub open_stream : Bytes → host.Disk → Ofstream × host.Disk
  unfolding opened
  open_stream p d = let (o, d') = host.open_out p d in (opened o, d')

  unfoldable pub is_open : Ofstream → Bool
  is_open s = elim s.file [ none ↦ false | some _ ↦ true ]

  -- `<<`; with nothing open it fails.
  unfoldable pub put : Bytes → Ofstream → Ofstream
  unfolding is_open
  put bytes s =
      if s.failed || not (is_open s)
      then record s { failed = true }
      else record s { buffer = s.buffer ++ bytes }

  write_out : Option host.Handle → Ofstream → host.Disk → Ofstream × host.Disk
  write_out none s d = (s, d)
  write_out (some o) s d =
      let (written, d') = host.write_at o s.position s.buffer d in
      (
        if written
            then record s { position = s.position + length s.buffer; buffer = [] }
            else record s { failed = true },
        d',
      )

  unfoldable pub flush : Ofstream → host.Disk → Ofstream × host.Disk
  unfolding write_out
  flush s d = if s.failed || is_empty s.buffer then (s, d) else write_out s.file s d

  -- `seekp(0)`; it does nothing on a stream that has failed.
  unfoldable pub seek_start : Ofstream → host.Disk → Ofstream × host.Disk
  unfolding flush
  seek_start s d =
      let (s', d') = flush s d in (if s'.failed then s' else record s' { position = 0 }, d')

  close_file : Option host.Handle → Ofstream → host.Disk → Ofstream × host.Disk
  close_file none s d = (record s { failed = true }, d)
  close_file (some o) s d = (record s { file = none }, host.close_out o d)

  -- `close()`: what is in the buffer is written first. Closing twice fails.
  unfoldable pub close : Ofstream → host.Disk → Ofstream × host.Disk
  unfolding flush close_file
  close s d = let (s', d') = flush s d in close_file s'.file s' d'
