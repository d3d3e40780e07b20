-- ===== src/Rpc/Endpoint.antt =====
-- The Ice server of the node: where src/JournalNodeRpcServer.h has it listen, and the file of its
-- configuration (ice-rpc-cc/src/Server.cc). Its `main`, which serves until it is shut down, is a
-- call of Ice.
pub mod Address
use jn_server_cc.Base.{
  Bool, true, false, not, [], ◌∷◌, ◌++◌, Bytes, codes, ℤ, pos, Action, Outcome, done, fail, error,
  is_empty, if◌then◌else◌,
}
use jn_server_cc.Text.{print_long}
use jn_server_cc.Host.{Host}
use jn_server_cc.Stream.{open_stream, is_open, put, close}
use jn_server_cc.Files.{HostPortPair, host_port_pair, file_delete}
use jn_server_cc.Node.{Properties, property_or, rpc_address_key, rpc_address_default}

pub record IceServer : Type 0 where
  pub protocol : Bytes
  pub bind_address : Bytes
  pub port : ℤ
  pub num_handlers : ℤ
  pub running : Bool

-- The server that the constructor of JournalNodeRpcServer makes.
unfoldable pub new_server : Properties → IceServer
unfolding property_or
new_server conf =
    let pair = host_port_pair (property_or conf rpc_address_key rpc_address_default) in
    record {
      protocol = codes "QJournalProtocolPB";
      bind_address = pair.hostname;
      port = pair.port;
      num_handlers = pos 1;
      running = false;
    }

abbrev pub server_config : Bytes
server_config = codes "/tmp/config.server"

unfoldable pub config_text : IceServer → Bytes
config_text s =
    s.protocol
    ++ (codes ".Endpoints=tcp -h "
        ++ (s.bind_address
            ++ (codes " -p "
                ++ (print_long s.port
                    ++ (10 ∷ codes "Ice.ThreadPool.Server.Size=")
                    ++ (print_long s.num_handlers ++ 10 ∷ [])))))

module _ ⦃host : Host⦄ where
  -- `createConfigFile`; its code 1 is the outcome `error`.
  unfoldable pub create_config_file : IceServer → host.Disk → Outcome (Unit {0}) × host.Disk
  unfolding config_text
  create_config_file s d =
      let (strm, d1) = open_stream server_config d in
      let (_, d2) = close (put (config_text s) strm) d1 in
      if is_open strm then (done tt, d2) else (fail error, d1)

  -- `deleteConfigFile`: the code of `file_delete`, 0 or -1, as a `bool`.
  unfoldable pub delete_config_file : host.Disk → Bool × host.Disk
  delete_config_file d = let (deleted, d') = file_delete server_config d in (not deleted, d')

  -- `stop`, without the shutdown of the communicator.
  unfoldable pub stop : IceServer → host.Disk → IceServer × host.Disk
  unfolding delete_config_file
  stop s d =
      let (_, d') = delete_config_file d in
      if s.running then (record s { running = false }, d') else (s, d)

  -- `run`: the requests are served while it waits for the shutdown; the code is 0.
  unfoldable pub run : (host.Disk → host.Disk) → IceServer → host.Disk → IceServer × host.Disk
  unfolding stop
  run serving s d = stop (record s { running = true }) (serving d)

  -- `start`: the status that the process exits with, where `main` of the application, which reads
  -- the configuration and calls `run`, is a parameter.
  unfoldable pub start :
      (IceServer → host.Disk → ℤ × host.Disk) → IceServer → host.Disk → ℤ × host.Disk
  unfolding create_config_file
  start main s d =
      let (r, d1) = create_config_file s d in elim r [ done _ ↦ main s d1 | fail _ ↦ (pos 1, d1) ]
