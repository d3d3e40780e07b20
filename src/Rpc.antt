-- ===== src/Rpc.antt =====
-- src/JournalNodeRpcServer: a request goes to the journal that it names, and its code comes back.
pub mod Translator
pub mod Endpoint
use jn_server_cc.Base.{ℕ, Bool, List, [], ◌∷◌, Option, Bytes, ℤ, pure, gets, ◌>>=◌, ◌>>◌}
use jn_server_cc.Messages.{SegmentState, PrepareRecoveryResponse, to_u64, to_long}
use jn_server_cc.Host.{Host}
use jn_server_cc.Storage.{StorageInfo}
use jn_server_cc.EditLog.File.{EditLogFile}
use jn_server_cc.Journal.State.{RequestInfo}
use jn_server_cc.Journal.Scanning
use jn_server_cc.Journal.Segments
use jn_server_cc.Journal.Recovery
use jn_server_cc.Journal.Manifest
use jn_server_cc.Journal.Opening.{get_last_promised_epoch, is_formatted_call}
use jn_server_cc.Journal.Opening
use jn_server_cc.Node.{NodeCall, on_journal}

-- GetJournalStateResponseProto
pub record JournalState : Type 0 where
  pub last_promised_epoch : ℕ
  pub http_port : ℕ
  pub from_url : Bytes

-- GetEditLogManifestResponseProto; RemoteEditLogProto has the fields of a segment's state.
pub record ManifestResponse : Type 0 where
  pub logs : List SegmentState
  pub http_port : ℕ
  pub from_url : Bytes

unfoldable pub remote_edit_logs : List EditLogFile → List SegmentState
remote_edit_logs [] = []
remote_edit_logs (l ∷ ls) =
    record {
      start_txid = to_u64 l.first_txid;
      end_txid = to_u64 l.last_txid;
      is_in_progress = l.in_progress;
    }
    ∷ remote_edit_logs ls

module _ ⦃host : Host⦄ where
  unfoldable pub is_formatted : Bytes → NodeCall Bool
  is_formatted jid = on_journal jid is_formatted_call

  unfoldable pub get_journal_state : Bytes → NodeCall JournalState
  get_journal_state jid = do
    epoch ← on_journal jid get_last_promised_epoch
    gets (λ n. record {
      last_promised_epoch = to_u64 epoch;
      http_port = n.http_port;
      from_url = n.http_server_uri;
    })

  -- The epoch goes from `uint64_t` to `long`.
  unfoldable pub new_epoch : Bytes → StorageInfo → ℕ → NodeCall (Option ℕ)
  new_epoch jid ns epoch = on_journal jid (Scanning.new_epoch ns (to_long epoch))

  unfoldable pub format : Bytes → StorageInfo → NodeCall (Unit {0})
  format jid ns = on_journal jid (Opening.format ns)

  unfoldable pub journal : RequestInfo → ℤ → ℤ → ℤ → Bytes → NodeCall (Unit {0})
  journal req segment first num records =
      on_journal req.jid (Segments.journal req segment first num records)

  unfoldable pub start_log_segment : RequestInfo → ℤ → ℤ → NodeCall (Unit {0})
  start_log_segment req txid layout_version =
      on_journal req.jid (Segments.start_log_segment req txid layout_version)

  unfoldable pub finalize_log_segment : RequestInfo → ℤ → ℤ → NodeCall (Unit {0})
  finalize_log_segment req start end =
      on_journal req.jid (Segments.finalize_log_segment req start end)

  unfoldable pub get_edit_log_manifest : Bytes → ℤ → Bool → NodeCall ManifestResponse
  unfolding remote_edit_logs
  get_edit_log_manifest jid since ok = do
    logs ← on_journal jid (Manifest.get_edit_log_manifest since ok)
    gets (λ n. record {
      logs = remote_edit_logs logs;
      http_port = n.http_port;
      from_url = n.http_server_uri;
    })

  unfoldable pub prepare_recovery : RequestInfo → ℤ → NodeCall PrepareRecoveryResponse
  prepare_recovery req txid = on_journal req.jid (Recovery.prepare_recovery req txid)

  unfoldable pub accept_recovery : RequestInfo → SegmentState → Bytes → NodeCall (Unit {0})
  accept_recovery req state url = on_journal req.jid (Recovery.accept_recovery req state url)
