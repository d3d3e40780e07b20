-- ===== src/Tests/Node.antt =====
-- Requests and downloads of a node with one journal.
use jn_server_cc.Base.{
  ◌≡◌, fail, error, ◌>>=◌, pos, done, arith, ◌≢◌, refl, List, [], ◌∷◌, some, none, Bytes, codes,
  bytes_eq, if◌then◌else◌, inl, inr,
}
use jn_server_cc.Host.Memory.{memory}
use jn_server_cc.Dict.{find, insert}
use jn_server_cc.Dict.Laws.{IsSorted}
use jn_server_cc.Journal.State.{Journal, reading, get_promised, set_promised}
use jn_server_cc.Journal.Epochs.Promise.{IsLoaded, Later}
use jn_server_cc.Node.{
  JournalNode, on_journal, get_or_create_journal, through_pointer, Properties, new_node,
}
use jn_server_cc.Rpc.Translator.{
  NamespaceInfoProto, RequestInfoProto, get_journal_state, state, handle, last_segment, target,
  format, new_epoch, prepare_recovery,
}
use jn_server_cc.Http.{Variables}
use jn_server_cc.Server.{Event, request, download, after, serve_all}
use jn_server_cc.Server.Journals.{after_others, serve_all-IsSorted, serve_all-Later}
use jn_server_cc.Text.{print_long}
use jn_server_cc.LongFile.Persistent
use jn_server_cc.Stream.{is_open, open_stream, put, close}
use jn_server_cc.Files.{dir_exists}
use jn_server_cc.Storage.{is_formatted, check_consistent_namespace}
use jn_server_cc.Manager.{get_log_files, match_edit_logs, sort_logs, logs_from, logs_of_names}
use jn_server_cc.Journal.Epochs.{check_formatted, update_last_promised_epoch, abort_cur_segment}
use jn_server_cc.Journal.Scanning
use jn_server_cc.Journal.Scanning.{promise_epoch, scan_storage_for_latest_edits, latest_of}
use jn_server_cc.Rpc
use jn_server_cc.Rpc.{JournalState}
use jn_server_cc.Server.Once.{handle_epoch_once, handle_reported_epoch}
use jn_server_cc.Messages.{to_long}
use jn_server_cc.Journal.Opening.{get_last_promised_epoch}
use jn_server_cc.Tests.Requests.{empty}
use jn_server_cc.Tests.Setup.{writing, files}

abbrev pub cluster : Bytes
cluster = codes "TestCluster"

abbrev pub conf : Properties
conf key = []

abbrev pub fake_namespace : NamespaceInfoProto
fake_namespace = record {
  layout_version = 4294967239;
  cluster_id = codes "CID-007";
  namespace_id = 123;
  c_time = 0;
}

abbrev pub writer : RequestInfoProto
writer = record { journal_id = cluster; epoch = 4; ipc_serial_number = 1; committed_txid = none }

abbrev pub variables : Variables
variables name size =
    if bytes_eq name (codes "jid")
    then cluster
    else if bytes_eq name (codes "segmentTxId")
    then codes "1"
    else codes "-57:123:0:CID-007"

-- A node with the journal that is being written.
abbrev pub node : JournalNode
node = record {
  conf = conf;
  journals_by_id = (cluster, writing) ∷ [];
  http_server_uri = codes "0.0.0.0:8480";
  local_dir = codes "/jn";
  http_port = 8480;
  disk = files;
}

-- A new writer takes the journal over, while a segment is downloaded and another journal formatted.
abbrev events : List Event
events =
    request (new_epoch cluster fake_namespace 4)
    ∷ download (codes "/getJournal") variables
    ∷ request (format (codes "Other") fake_namespace)
    ∷ request (prepare_recovery writer 1)
    ∷ []

other : cluster ≢ target (format (codes "Other") fake_namespace)
unfolding target
other e = absurd (cc e)

after_others_example :
    find cluster (after (request (format (codes "Other") fake_namespace)) node).journals_by_id
    ≡ find cluster node.journals_by_id
after_others_example =
    after_others (request (format (codes "Other") fake_namespace)) node cluster other

serve_all-IsSorted_example : IsSorted (serve_all events (new_node conf [])).journals_by_id
serve_all-IsSorted_example = serve_all-IsSorted conf [] events

serve_all-Later_example :
    (j : Journal) × (find cluster (serve_all events node).journals_by_id ≡ some j)
    × IsLoaded j
    × Later writing j
unfolding find
serve_all-Later_example =
    serve_all-Later cluster events node writing (inl refl, (inr other, (inl refl, tt))) refl refl

-- The node before its first segment.
abbrev pub empty_node : JournalNode
empty_node = record node { journals_by_id = (cluster, empty) ∷ []; disk = [] }

pub epoch_given :
    (handle (new_epoch cluster fake_namespace 4) empty_node).0 ≡ done (last_segment none)
unfolding handle find insert ◌>>=◌ Rpc.new_epoch on_journal get_or_create_journal through_pointer
    Scanning.new_epoch check_formatted is_formatted reading check_consistent_namespace promise_epoch
    get_promised Persistent.get update_last_promised_epoch set_promised Persistent.set is_open
    open_stream abort_cur_segment scan_storage_for_latest_edits dir_exists get_log_files
    match_edit_logs sort_logs logs_from logs_of_names latest_of put close print_long
epoch_given = refl

handle_epoch_once_example :
    (handle
      (new_epoch cluster fake_namespace 4)
      (serve_all events (handle (new_epoch cluster fake_namespace 4) empty_node).1)).0
    ≡ fail error
handle_epoch_once_example =
    handle_epoch_once cluster fake_namespace fake_namespace 4 4 (last_segment none) events
      empty_node epoch_given (inl refl, (inr other, (inl refl, tt))) (omega arith)

-- What getJournalState answers.
abbrev report : JournalState
report = record { last_promised_epoch = 3; http_port = 8480; from_url = codes "0.0.0.0:8480" }

reported : (handle (get_journal_state cluster) node).0 ≡ done (state report)
unfolding handle find insert ◌>>=◌ Rpc.get_journal_state on_journal get_or_create_journal
    through_pointer get_last_promised_epoch get_promised Persistent.get
reported = refl

found : find cluster node.journals_by_id ≡ some writing
unfolding find
found = refl

handle_reported_epoch_example :
    (to_long 3 ≡ pos 3)
    × ((handle (new_epoch cluster fake_namespace 3) (serve_all events node)).0 ≡ fail error)
handle_reported_epoch_example =
    handle_reported_epoch cluster fake_namespace node writing report events found refl (omega arith)
      reported (inl refl, (inr other, (inl refl, tt)))
