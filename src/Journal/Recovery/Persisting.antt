-- ===== src/Journal/Recovery/Persisting.antt =====
-- `persistPaxosData` and `getPersistedPaxosData` of src/Journal.cpp, one after the other.
use jn_server_cc.Base.{◌≡◌, true, false, some, Bytes, codes, ◌++◌, is_empty, ℤ, arith, done, ◌>>=◌}
use jn_server_cc.Host.{Host}
use jn_server_cc.Messages.{PaxosData, to_u64}
use jn_server_cc.Stream.{open_stream, is_open, put, close}
use jn_server_cc.Files.{file_exists, file_rename}
use jn_server_cc.Storage.{get_paxos_file}
use jn_server_cc.Journal.State.{Journal, reading}
use jn_server_cc.Journal.Recovery.{persisted, get_persisted_paxos_data}

module _ ⦃host : Host⦄ where
  -- The journal once the decision has been renamed to its file.
  pub persisted_renamed :
      (f text : Bytes) (j : Journal) (d1 d2 d3 : host.Disk) (o : host.Handle)
      → is_empty text ≡ false
      → host.open_out (f ++ codes ".tmp") j.disk ≡ (some o, d1)
      → host.write_at o 0 text d1 ≡ (true, d2)
      → host.rename (f ++ codes ".tmp") f (host.close_out o d2) ≡ (true, d3)
      → persisted f (some text) j ≡ (done tt, record j { disk = d3 })
  unfolding persisted open_stream put close is_open file_rename
  persisted_renamed f text j d1 d2 d3 o some_text opens writes renames = ground arith

  pub get_persisted_there :
      (txid : ℤ) (p : PaxosData) (text : Bytes) (j : Journal)
      → host.is_regular (get_paxos_file j.storage txid) j.disk ≡ some true
      → host.read_file (get_paxos_file j.storage txid) j.disk ≡ some text
      → host.parse text ≡ some p
      → p.segment_state.start_txid ≡ to_u64 txid
      → get_persisted_paxos_data txid j ≡ (done (some p), j)
  unfolding get_persisted_paxos_data file_exists reading ◌>>=◌
  get_persisted_there txid p text j there content parses start = ground arith
