-- ===== src/EditLog/Output.antt =====
-- src/JNClientOutputStream: the file of the segment that is being written.
use jn_server_cc.Base.{Bool, not, Bytes, ℤ}
use jn_server_cc.Messages.{to_u64}
use jn_server_cc.Host.{Host}
use jn_server_cc.Stream
use jn_server_cc.Stream.{Ofstream, open_stream, put, seek_start}
use jn_server_cc.EditLog.Transaction.{write_int}

module _ ⦃host : Host⦄ where
  pub record OutputStream : Type 0 where
    pub filename : Bytes
    pub stream : Ofstream

  -- The constructor, which opens the file.
  unfoldable pub new_stream : Bytes → host.Disk → OutputStream × host.Disk
  new_stream filename d =
      let (s, d') = open_stream filename d in (record { filename = filename; stream = s }, d')

  unfoldable pub close : OutputStream → host.Disk → OutputStream × host.Disk
  close o d = let (s, d') = Stream.close o.stream d in (record o { stream = s }, d')

  -- `abort` closes the stream, and always returns 0.
  unfoldable pub abort : OutputStream → host.Disk → OutputStream × host.Disk
  unfolding close
  abort o d = close o d

  unfoldable pub write_raw : Bytes → OutputStream → OutputStream
  write_raw records o = record o { stream = put records o.stream }

  unfoldable pub flush : OutputStream → host.Disk → Bool × OutputStream × host.Disk
  flush o d = let (s, d') = Stream.flush o.stream d in (not s.failed, record o { stream = s }, d')

  -- The header: the layout version, and no layout flags.
  unfoldable pub create : ℤ → OutputStream → host.Disk → Bool × OutputStream × host.Disk
  unfolding flush
  create layout_version o d =
      let (s, d') = seek_start o.stream d in
      flush (record o { stream = put (write_int 0) (put (write_int (to_u64 layout_version)) s) }) d'
