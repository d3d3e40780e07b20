-- ===== src/Tests/Setup.antt =====
-- The requests of test/TestJournal.cpp, and a journal that is being written.
use jn_server_cc.Base.{ℕ, true, false, [], ◌∷◌, some, Bytes, codes, pos, negsuc}
use jn_server_cc.Host.Memory.{memory, Files}
use jn_server_cc.Storage.{StorageInfo, normal}
use jn_server_cc.EditLog.Transaction.{transaction}
use jn_server_cc.Journal.State.{Journal, RequestInfo}

-- createFakeNSINFO
abbrev pub fake_ns : StorageInfo
fake_ns = record {
  layout_version = negsuc 56;
  cluster_id = codes "CID-007";
  namespace_id = pos 123;
  c_time = 0;
}

-- makeRI, with the epoch
abbrev pub make_ri : ℕ → ℕ → RequestInfo
make_ri epoch serial = record {
  jid = codes "TestCluster";
  epoch = pos epoch;
  ipc_serial_number = pos serial;
  committed_txid = pos 0;
}

abbrev pub crc : Bytes → ℕ
crc s = 7

abbrev pub create_transaction : ℕ → Bytes
create_transaction txid = transaction crc (pos txid) (codes "Data")

-- The files of a journal that has promised epoch 3 and holds the first transaction.
abbrev pub files : Files
files =
    (codes "/jn/current/last-promised-epoch", codes "3\n")
    ∷ (codes "/jn/current/last-writer-epoch", codes "3\n")
    ∷ (codes "/jn/current/committed-txid", codes "0000000000000000000")
    ∷ (codes "/jn/current/edits_inprogress_0000000000000000001", [])
    ∷ []

-- The journal in front of its second batch: epoch 3, serial number 2, next txid 2.
abbrev pub writing : Journal
writing = record {
  cur_segment = some (record {
    filename = codes "/jn/current/edits_inprogress_0000000000000000001";
    stream = record {
      file = some (codes "/jn/current/edits_inprogress_0000000000000000001");
      position = 0;
      buffer = [];
      failed = false;
    };
  });
  cur_segment_txid = pos 1;
  next_txid = pos 2;
  highest_written_txid = pos 1;
  current_epoch_ipc_serial = pos 2;
  storage = record {
    info = fake_ns;
    log_dir = codes "/jn";
    current_dir = codes "/jn/current";
    state = normal;
    lock_file_fd = pos 3;
  };
  last_promised_epoch = record {
    file = codes "/jn/current/last-promised-epoch";
    default_val = pos 0;
    value = pos 3;
    loaded = true;
  };
  last_writer_epoch = record {
    file = codes "/jn/current/last-writer-epoch";
    default_val = pos 0;
    value = pos 3;
    loaded = true;
  };
  committed_txn_id = record {
    file = codes "/jn/current/committed-txid";
    default_val = negsuc 12344;
    value = pos 0;
    opened = true;
    ostrm = record {
      file = some (codes "/jn/current/committed-txid");
      position = 0;
      buffer = [];
      failed = false;
    };
  };
  fjm = record { current_in_progress = codes "/jn/current/edits_inprogress_0000000000000000001" };
  disk = files;
}
