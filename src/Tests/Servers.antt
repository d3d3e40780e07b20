-- ===== src/Tests/Servers.antt =====
-- The start of a node, its web server under a signal, and its messages.
use jn_server_cc.Base.{
  ◌≡◌, refl, List, [], ◌∷◌, ◌++◌, none, some, Bytes, codes, pos, ℤ, bytes_eq, if◌then◌else◌, arith,
  done, pure, ◌>>=◌, fail, undefined,
}
use jn_server_cc.Host.Memory.{memory, Files}
use jn_server_cc.Text.{print_ℕ, atoi}
use jn_server_cc.Stream.{is_open, open_stream}
use jn_server_cc.Files.{is_absolute_path, dir_exists, host_port_pair}
use jn_server_cc.Node
use jn_server_cc.Node.{JournalNode, Properties, http_address_key, edits_dir_key, new_node}
use jn_server_cc.Http.Polling.{
  HttpServer, idle_server, sigterm, Poll, handle_all, run_httpserver, start_httpserver,
}
use jn_server_cc.Http.Polling.Signals.{all_requests, run_httpserver-handle_all}
use jn_server_cc.Rpc.Endpoint.{IceServer}
use jn_server_cc.Rpc.Endpoint
use jn_server_cc.Server.Starting.{main}
use jn_server_cc.Server.Starting.Ports.{main_listening_port}
use jn_server_cc.Logger.{
  log_debug, log_info, log_warn, Clock, Logger, Entry, message, set_log_level, log_all,
}
use jn_server_cc.Logger.Lines.{lines, settled, log_all-lines}
use jn_server_cc.Tests.Node.{variables, node}

-- A download, then one more with the signal, and one that comes too late.
abbrev before_signal : List Poll
before_signal = record { requests = (codes "/getJournal", variables) ∷ []; signal = none } ∷ []

abbrev with_signal : Poll
with_signal = record { requests = (codes "/other", variables) ∷ []; signal = some sigterm }

abbrev too_late : List Poll
too_late = record { requests = (codes "/getJournal", variables) ∷ []; signal = none } ∷ []

run_httpserver-handle_all_example :
    run_httpserver idle_server (before_signal ++ with_signal ∷ too_late) node
    ≡ (do
      replies ← handle_all (all_requests before_signal ++ with_signal.requests)
      pure (replies, fail undefined))
        node
run_httpserver-handle_all_example =
    run_httpserver-handle_all idle_server before_signal with_signal too_late sigterm node refl
      (refl, tt) refl

abbrev properties : Properties
properties key =
    if bytes_eq key http_address_key
    then codes "jn1.example" ++ b':' ∷ print_ℕ 8480
    else if bytes_eq key edits_dir_key
    then codes "/jn"
    else []

-- Ice serves nothing and exits with 0.
abbrev ice : IceServer → Files → ℤ × Files
ice s d = (pos 0, d)

abbrev web : HttpServer
web = record { listening_port = print_ℕ 8480; signal_received = 0 }

abbrev started_node : JournalNode
started_node = record (new_node properties []) {
  disk = (Endpoint.start ice (Endpoint.new_server properties) []).1;
}

started : main ice 2 properties [] ≡ some (done (web, pos 0), started_node)
unfolding main ◌>>=◌ Node.start is_absolute_path new_node dir_exists start_httpserver Endpoint.start
    host_port_pair atoi print_ℕ is_open open_stream
started = refl

main_listening_port_example : web.listening_port ≡ print_ℕ 8480
main_listening_port_example =
    main_listening_port ice properties (codes "jn1.example") 8480 [] web (pos 0) started_node refl
      refl (omega arith) started

-- The arguments are printed behind the format.
abbrev behind : Bytes → Bytes → Bytes
behind format args = format ++ args

abbrev clock : Clock
clock = record {
  now = record {
    tm_year = pos 114;
    tm_mon = pos 8;
    tm_mday = pos 17;
    tm_hour = pos 10;
    tm_min = pos 30;
    tm_sec = pos 5;
  };
  tv_usec = some (pos 250);
}

abbrev entries : List (Entry Bytes)
entries =
    message log_debug clock (codes "Closing journal ") (codes "a")
    ∷ set_log_level log_warn
    ∷ message log_info clock (codes "Starting") []
    ∷ message log_warn clock (codes "Refused") []
    ∷ []

abbrev logger : Logger
logger = record {
  fstrm = settled [];
  level = log_debug;
  buf_msg_count_max = 10;
  cur_buf_msg_count = 0;
}

log_all-lines_example :
    (log_all behind entries logger).fstrm ≡ settled ([] ++ lines behind log_debug entries)
log_all-lines_example = log_all-lines behind entries logger refl
