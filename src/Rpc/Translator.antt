-- ===== src/Rpc/Translator.antt =====
-- ice-qjournal-protocol/QJournalProtocolServerSideTranslatorPB: the messages of the wire, whose
-- numbers are unsigned, become calls of the server. Every code but 0 becomes a ServiceException:
-- that is the outcome `error`.
pub mod Fencing
use jn_server_cc.Base.{
  ℕ, Bool, true, false, Option, none, some, Bytes, ℤ, Outcome, Action, done, fail, pure, ◌>>=◌,
  ◌>>◌,
}
use jn_server_cc.Text.{int_of}
use jn_server_cc.Messages.{SegmentState, PrepareRecoveryResponse, to_long}
use jn_server_cc.Host.{Host}
use jn_server_cc.Storage.{StorageInfo}
use jn_server_cc.EditLog.Transaction.{invalid_txid}
use jn_server_cc.Journal.State.{RequestInfo}
use jn_server_cc.Node.{NodeCall}
use jn_server_cc.Rpc
use jn_server_cc.Rpc.{JournalState, ManifestResponse}

-- RequestInfoProto
pub record RequestInfoProto : Type 0 where
  pub journal_id : Bytes
  pub epoch : ℕ
  pub ipc_serial_number : ℕ
  pub committed_txid : Option ℕ

-- NamespaceInfoProto, with what the server reads of it.
pub record NamespaceInfoProto : Type 0 where
  pub layout_version : ℕ
  pub cluster_id : Bytes
  pub namespace_id : ℕ
  pub c_time : ℕ

abbrev committed_of : Option ℕ → ℤ
committed_of none = invalid_txid
committed_of (some n) = to_long n

-- RequestInfo(const hadoop::hdfs::RequestInfoProto&)
unfoldable pub request_info : RequestInfoProto → RequestInfo
request_info p = record {
  jid = p.journal_id;
  epoch = to_long p.epoch;
  ipc_serial_number = to_long p.ipc_serial_number;
  committed_txid = committed_of p.committed_txid;
}

-- NamespaceInfo(const hadoop::hdfs::NamespaceInfoProto&): `uint32` fields become `int32_t`.
unfoldable pub namespace_info : NamespaceInfoProto → StorageInfo
namespace_info p = record {
  layout_version = int_of p.layout_version;
  cluster_id = p.cluster_id;
  namespace_id = int_of p.namespace_id;
  c_time = p.c_time;
}

-- The requests of the protocol. The number of transactions is a `uint32`, the layout version a
-- `sint32`.
pub data Message : Type 0 where
  is_formatted get_journal_state : Bytes → Message
  new_epoch : Bytes → NamespaceInfoProto → ℕ → Message
  format : Bytes → NamespaceInfoProto → Message
  journal : RequestInfoProto → ℕ → ℕ → ℕ → Bytes → Message
  start_log_segment : RequestInfoProto → ℕ → ℤ → Message
  finalize_log_segment : RequestInfoProto → ℕ → ℕ → Message
  get_edit_log_manifest : Bytes → ℕ → Bool → Message
  prepare_recovery : RequestInfoProto → ℕ → Message
  accept_recovery : RequestInfoProto → SegmentState → Bytes → Message

-- The responses; those without fields are one.
pub data Response : Type 0 where
  formatted : Bool → Response
  state : JournalState → Response
  last_segment : Option ℕ → Response
  manifest : ManifestResponse → Response
  recovery : PrepareRecoveryResponse → Response
  empty : Response

-- The journal that a request names.
unfoldable pub target : Message → Bytes
target (is_formatted jid) = jid
target (get_journal_state jid) = jid
target (new_epoch jid ns epoch) = jid
target (format jid ns) = jid
target (journal ri segment first num records) = ri.journal_id
target (start_log_segment ri txid version) = ri.journal_id
target (finalize_log_segment ri start end) = ri.journal_id
target (get_edit_log_manifest jid since ok) = jid
target (prepare_recovery ri txid) = ri.journal_id
target (accept_recovery ri seg url) = ri.journal_id

module _ ⦃host : Host⦄ where
  -- A response of the server that succeeded.
  unfoldable pub with_response : {A : Type 0} → NodeCall A → (A → Response) → NodeCall Response
  with_response m f = do a ← m; pure (f a)

  -- The methods of the translator.
  unfoldable pub handle : Message → NodeCall Response
  unfolding with_response request_info namespace_info
  handle (is_formatted jid) = with_response (Rpc.is_formatted jid) formatted
  handle (get_journal_state jid) = with_response (Rpc.get_journal_state jid) state
  handle (new_epoch jid ns epoch) =
      with_response (Rpc.new_epoch jid (namespace_info ns) epoch) last_segment
  handle (format jid ns) = with_response (Rpc.format jid (namespace_info ns)) (λ _. empty)
  handle (journal ri segment first num records) =
      with_response
        (Rpc.journal (request_info ri) (to_long segment) (to_long first) (int_of num) records)
        (λ _. empty)
  handle (start_log_segment ri txid version) =
      with_response (Rpc.start_log_segment (request_info ri) (to_long txid) version) (λ _. empty)
  handle (finalize_log_segment ri start end) =
      with_response (Rpc.finalize_log_segment (request_info ri) (to_long start) (to_long end))
        (λ _. empty)
  handle (get_edit_log_manifest jid since ok) =
      with_response (Rpc.get_edit_log_manifest jid (to_long since) ok) manifest
  handle (prepare_recovery ri txid) =
      with_response (Rpc.prepare_recovery (request_info ri) (to_long txid)) recovery
  handle (accept_recovery ri seg url) =
      with_response (Rpc.accept_recovery (request_info ri) seg url) (λ _. empty)
