-- ===== src/Server.antt =====
-- A node with its two servers: the requests of writers and the downloads of other nodes, one after
-- another.
pub mod Journals
pub mod Once
pub mod Starting
use jn_server_cc.Base.{List, [], ◌∷◌, Option, Bytes, pure, ◌>>=◌}
use jn_server_cc.Host.{Host}
use jn_server_cc.Node.{JournalNode, NodeCall}
use jn_server_cc.Rpc.Translator.{Message, handle}
use jn_server_cc.Http.{Variables, ev_handler}

pub data Event : Type 0 where
  request : Message → Event
  download : Bytes → Variables → Event

module _ ⦃host : Host⦄ where
  -- The node after an event, whatever is answered.
  unfoldable pub after : Event → JournalNode → JournalNode
  after (request msg) n = (handle msg n).1
  after (download uri var) n = (ev_handler uri var n).1

  unfoldable pub serve_all : List Event → JournalNode → JournalNode
  unfolding after
  serve_all [] n = n
  serve_all (e ∷ es) n = serve_all es (after e n)
