-- ===== src/Journal/Requests.antt =====
-- The requests that a journal serves (src/QjournalProtocol.h), and runs of them.
pub mod Steady
pub mod Moving
pub mod Fencing
pub mod Asked
pub mod Replay
pub mod Once
pub mod Restart
use jn_server_cc.Base.{ℕ, Bool, List, [], ◌∷◌, Option, some, none, Bytes, ℤ, pure, ◌>>=◌}
use jn_server_cc.Host.{Host}
use jn_server_cc.Messages.{SegmentState}
use jn_server_cc.Storage.{StorageInfo}
use jn_server_cc.Journal.State.{Journal, Call, RequestInfo}
use jn_server_cc.Journal.Scanning.{new_epoch}
use jn_server_cc.Journal.Segments.{start_log_segment, journal, finalize_log_segment}
use jn_server_cc.Journal.Recovery.{prepare_recovery, accept_recovery}
use jn_server_cc.Journal.Manifest.{get_edit_log_manifest}

pub data Request : Type 0 where
  new_epochs : StorageInfo → ℤ → Request
  starts : RequestInfo → ℤ → ℤ → Request
  journals : RequestInfo → ℤ → ℤ → ℤ → Bytes → Request
  finalizes : RequestInfo → ℤ → ℤ → Request
  prepares : RequestInfo → ℤ → Request
  accepts : RequestInfo → SegmentState → Bytes → Request
  lists : ℤ → Bool → Request

-- The writer's header, where the request has one.
abbrev pub header : Request → Option RequestInfo
header (new_epochs ns epoch) = none
header (starts req txid version) = some req
header (journals req segment first num records) = some req
header (finalizes req start end) = some req
header (prepares req segment) = some req
header (accepts req segment url) = some req
header (lists since ok) = none

module _ ⦃host : Host⦄ where
  -- The answer is left out; the return code is the outcome.
  unfoldable pub serve : Request → Call (Unit {0})
  serve (new_epochs ns epoch) = do _ ← new_epoch ns epoch; pure tt
  serve (starts req txid version) = start_log_segment req txid version
  serve (journals req segment first num records) = journal req segment first num records
  serve (finalizes req start end) = finalize_log_segment req start end
  serve (prepares req segment) = do _ ← prepare_recovery req segment; pure tt
  serve (accepts req segment url) = accept_recovery req segment url
  serve (lists since ok) = do _ ← get_edit_log_manifest since ok; pure tt

  -- The journal after some requests, whatever their outcomes.
  unfoldable pub run : List Request → Journal → Journal
  run [] j = j
  run (r ∷ rs) j = run rs ((serve r j).1)
