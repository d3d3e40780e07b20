-- ===== src/Host/Laws.antt =====
-- What the theorems rely on of the files: the documented effect of the calls, for each file alone.
use jn_server_cc.Base.{◌≡◌, true, some, Bytes}
use jn_server_cc.Messages.{PaxosData}
use jn_server_cc.Host.{Host}

module _ ⦃host : Host⦄ where
  -- A file that is opened for writing is there, regular and empty, and the first write at its start
  -- that succeeds is its content.
  pub record FilesKeep : Type 0 where
    pub open_regular :
        (p : Bytes) (d d' : host.Disk) (o : host.Handle)
        → host.open_out p d ≡ (some o, d')
        → host.is_regular p d' ≡ some true
    pub write_read :
        (p s : Bytes) (d d' d'' : host.Disk) (o : host.Handle)
        → host.open_out p d ≡ (some o, d')
        → host.write_at o 0 s d' ≡ (true, d'')
        → (host.read_file p (host.close_out o d'') ≡ some s)
          × (host.is_regular p (host.close_out o d'') ≡ some true)

  -- What a file that is renamed holds, its new name has, and a message that is serialized parses.
  pub record DecisionsKeep : Type 0 where
    pub renamed :
        (a b t : Bytes) (d d' : host.Disk)
        → host.rename a b d ≡ (true, d')
        → host.read_file a d ≡ some t
        → (host.read_file b d' ≡ some t) × (host.is_regular b d' ≡ some true)
    pub parsed : (p : PaxosData) (t : Bytes) → host.serialize p ≡ some t → host.parse t ≡ some p

  -- The first write to a file that has been opened succeeds: the disk is not full.
  pub record WritesWork : Type 0 where
    pub writes :
        (p s : Bytes) (d d' : host.Disk) (o : host.Handle)
        → host.open_out p d ≡ (some o, d')
        → (host.write_at o 0 s d').0 ≡ true

  -- Deleting `b` or renaming `a` to `b` leaves the file `f` as it is.
  pub record LeavesAlone (a b f : Bytes) : Type 0 where
    pub removed :
        (d : host.Disk)
        → (host.read_file f (host.remove b d).1 ≡ host.read_file f d)
          × (host.is_regular f (host.remove b d).1 ≡ host.is_regular f d)
    pub renamed :
        (d : host.Disk)
        → (host.read_file f (host.rename a b d).1 ≡ host.read_file f d)
          × (host.is_regular f (host.rename a b d).1 ≡ host.is_regular f d)

  -- The file is in both states of the files as it is in the other.
  abbrev pub SameFile : Bytes → host.Disk → host.Disk → Type 0
  SameFile p d d' =
      (host.read_file p d ≡ host.read_file p d') × (host.is_regular p d ≡ host.is_regular p d')
