-- ===== src/Server/Starting.antt =====
-- src/JournalNode.cpp, `start` and `main`: the web server is started, and then the Ice server, which
-- serves until the process exits.
pub mod Ports
use jn_server_cc.Base.{
  ℕ, ◌==◌, Bytes, Option, none, some, ℤ, pos, Outcome, done, fail, if◌then◌else◌, pure, gets,
  modify, ◌>>=◌, ◌>>◌,
}
use jn_server_cc.Text.{print_ℕ}
use jn_server_cc.Host.{Host}
use jn_server_cc.Node
use jn_server_cc.Node.{JournalNode, NodeCall, Properties, new_node}
use jn_server_cc.Http.Polling.{HttpServer, idle_server, start_httpserver}
use jn_server_cc.Rpc.Endpoint.{IceServer, new_server}
use jn_server_cc.Rpc.Endpoint

module _ ⦃host : Host⦄ where
  -- `ostr << httpPort` and `start_httpserver`
  unfoldable pub start_web : NodeCall HttpServer
  start_web = gets (λ n. start_httpserver (print_ℕ n.http_port) idle_server)

  -- `rpcServer->start()`, with the status that the process exits with.
  unfoldable pub start_rpc : (IceServer → host.Disk → ℤ × host.Disk) → NodeCall ℤ
  start_rpc main n =
      let (status, d) = Endpoint.start main (new_server n.conf) n.disk in
      (done status, record n { disk = d })

  -- `start`
  unfoldable pub start_node : (IceServer → host.Disk → ℤ × host.Disk) → NodeCall (HttpServer × ℤ)
  unfolding start_web start_rpc
  start_node main = do Node.start; web ← start_web; status ← start_rpc main; pure (web, status)

  -- `main`, with the number of its arguments; `none` where it only prints how it is used.
  unfoldable pub main :
      (IceServer → host.Disk → ℤ × host.Disk)
      → ℕ
      → Properties
      → host.Disk
      → Option (Outcome (HttpServer × ℤ) × JournalNode)
  unfolding start_node
  main ice argc conf d = if argc == 2 then some (start_node ice (new_node conf d)) else none
