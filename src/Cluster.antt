-- ===== src/Cluster.antt =====
-- Several nodes and the writers that ask them, each by what it is sent, in its order. A writer goes
-- on where a majority of the nodes has answered, which is the rule of the quorum journal's writers.
pub mod Promised
pub mod Older
pub mod Writers
pub mod Fenced
use jn_server_cc.Base.{
  ℕ, ◌+◌, ◌*◌, ◌<◌, ◌==◌, Bool, true, false, ◌&&◌, ◌||◌, if◌then◌else◌, List, [], ◌∷◌, Option, none,
  some, Bytes, bytes_eq, length, ltb_ℤ, Outcome, done, fail,
}
use jn_server_cc.Host.{Host}
use jn_server_cc.Messages.{to_long}
use jn_server_cc.Node.{JournalNode}
use jn_server_cc.Rpc.Translator.{
  Message, RequestInfoProto, Response, is_formatted, get_journal_state, new_epoch, format, journal,
  start_log_segment, finalize_log_segment, get_edit_log_manifest, prepare_recovery, accept_recovery,
  handle,
}
use jn_server_cc.Server.{Event, request, download, after}

-- What a node is sent, and the number of the writer that sends it.
pub record Sent : Type 0 where
  pub writer : ℕ
  pub event : Event

-- The message is `newEpoch` for the journal with the epoch.
unfoldable pub asks_epoch : Bytes → ℕ → Message → Bool
asks_epoch jid epoch (is_formatted k) = false
asks_epoch jid epoch (get_journal_state k) = false
asks_epoch jid epoch (new_epoch k ns e) = bytes_eq k jid && e == epoch
asks_epoch jid epoch (format k ns) = false
asks_epoch jid epoch (journal ri segment first num records) = false
asks_epoch jid epoch (start_log_segment ri txid version) = false
asks_epoch jid epoch (finalize_log_segment ri start end) = false
asks_epoch jid epoch (get_edit_log_manifest k since ok) = false
asks_epoch jid epoch (prepare_recovery ri txid) = false
asks_epoch jid epoch (accept_recovery ri seg url) = false

-- The header of a writer's message.
abbrev pub header_of : Message → Option RequestInfoProto
header_of (is_formatted k) = none
header_of (get_journal_state k) = none
header_of (new_epoch k ns e) = none
header_of (format k ns) = none
header_of (journal ri segment first num records) = some ri
header_of (start_log_segment ri txid version) = some ri
header_of (finalize_log_segment ri start end) = some ri
header_of (get_edit_log_manifest k since ok) = none
header_of (prepare_recovery ri txid) = some ri
header_of (accept_recovery ri seg url) = some ri

abbrev older_header : Bytes → ℕ → Option RequestInfoProto → Bool
older_header jid epoch none = false
older_header jid epoch (some ri) =
    bytes_eq ri.journal_id jid && ltb_ℤ (to_long ri.epoch) (to_long epoch)

-- The message is a writer's for the journal, with an epoch below the given one.
unfoldable pub is_older : Bytes → ℕ → Message → Bool
is_older jid epoch msg = older_header jid epoch (header_of msg)

abbrev pub returns : Outcome Response → Bool
returns (done r) = true
returns (fail e) = false

module _ ⦃host : Host⦄ where
  -- A request that passes the test and is answered without an exception.
  unfoldable pub answered : (Message → Bool) → Event → JournalNode → Bool
  answered test (request msg) n = test msg && returns (handle msg n).0
  answered test (download uri var) n = false

  -- A node with what it has been sent and what it is sent then.
  pub record Member : Type 0 where
    pub node : JournalNode
    pub seen : List Sent
    pub coming : List Sent

  abbrev pub node_after : List Sent → JournalNode → JournalNode
  node_after [] n = n
  node_after (s ∷ ss) n = node_after ss (after s.event n)

  -- Something that is sent passes the test at the node as it is then.
  unfoldable pub happens : (Sent → JournalNode → Bool) → List Sent → JournalNode → Bool
  happens test [] n = false
  happens test (s ∷ ss) n = test s n || happens test ss (after s.event n)

  -- The node has given the epoch to the writer.
  unfoldable pub has_given : ℕ → Bytes → ℕ → Member → Bool
  has_given w jid epoch m =
      happens (λ s n. s.writer == w && answered (asks_epoch jid epoch) s.event n) m.seen m.node

  -- The node accepts a request of a writer with an older epoch then.
  unfoldable pub accepts_older : Bytes → ℕ → Member → Bool
  accepts_older jid epoch m =
      happens (λ s n. answered (is_older jid epoch) s.event n) m.coming (node_after m.seen m.node)

  unfoldable pub count : (Member → Bool) → List Member → ℕ
  count test [] = 0
  count test (m ∷ ms) = (if test m then 1 else 0) + count test ms

  abbrev pub Majority : (Member → Bool) → List Member → Type 0
  Majority test ms = length ms < 2 * count test ms
