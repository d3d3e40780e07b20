-- ===== src/Host/Appending.antt =====
-- What the theorems on the segment that is being written rely on: what a file that is open for
-- writing holds.
use jn_server_cc.Base.{◌≡◌, true, [], ◌++◌, some, Bytes, length}
use jn_server_cc.Host.{Host}

module _ ⦃host : Host⦄ where
  -- A file that is opened is open and empty, and what is written at its end with success is added.
  pub record FilesAppend : Type 1 where
    -- The handle is open on the file.
    pub IsOpen : host.Handle → Bytes → host.Disk → Type 0
    pub opens :
        (p : Bytes) (d d' : host.Disk) (o : host.Handle)
        → host.open_out p d ≡ (some o, d')
        → IsOpen o p d' × (host.read_file p d' ≡ some [])
    pub appends :
        (o : host.Handle) (p t s : Bytes) (d d' : host.Disk)
        → IsOpen o p d
        → host.read_file p d ≡ some t
        → host.write_at o (length t) s d ≡ (true, d')
        → IsOpen o p d' × (host.read_file p d' ≡ some (t ++ s))
    -- What is in a file stays there when it is closed, and a file that is renamed has it under its
    -- new name.
    pub closes :
        (o : host.Handle) (p t : Bytes) (d : host.Disk)
        → IsOpen o p d
        → host.read_file p d ≡ some t
        → host.read_file p (host.close_out o d) ≡ some t
    pub renames :
        (a b t : Bytes) (d d' : host.Disk)
        → host.rename a b d ≡ (true, d')
        → host.read_file a d ≡ some t
        → host.read_file b d' ≡ some t
