-- ===== src/Http.antt =====
-- src/JournalNodeHttpServer: the handler that sends a log file to another journal node. The web
-- server that calls it, util/mongoose.c, is a parameter: what `mg_get_var` leaves in a buffer.
pub mod Tokens
pub mod Replies
pub mod Serving
pub mod Polling
use jn_server_cc.Base.{
  ℕ, Bool, true, false, ◌&&◌, not, List, [], ◌∷◌, ◌++◌, Option, none, some, Bytes, codes, bytes_eq,
  is_empty, ◌==◌, if◌then◌else◌, ℤ, eqb_ℤ, Outcome, done, fail, error, pure, gets, ignore_code,
  ◌>>=◌, ◌>>◌,
}
use jn_server_cc.Text.{atoi, strtol}
use jn_server_cc.Host.{Host}
use jn_server_cc.Storage.{JnStorage}
use jn_server_cc.EditLog.File.{EditLogFile, is_initialized}
use jn_server_cc.Manager.{get_log_file}
use jn_server_cc.Journal.State.{Journal, Call}
use jn_server_cc.Node.{NodeCall, get_or_create_journal, through_pointer}

-- The text up to a colon, in front of the tokens of the rest.
abbrev with_char : ℕ → Bool → List Bytes → List Bytes
with_char c false ts = (c ∷ []) ∷ ts
with_char c true [] = (c ∷ []) ∷ []
with_char c true (t ∷ ts) = (c ∷ t) ∷ ts

-- Whether a token goes on at the start of a text.
abbrev starts_token : Bytes → Bool
starts_token [] = false
starts_token (c ∷ s) = not (c == b':')

-- The tokens that the calls of `strtok` with ":" find: the longest pieces without a colon.
unfoldable pub tokens : Bytes → List Bytes
tokens [] = []
tokens (c ∷ s) =
    let rest = tokens s in if c == b':' then rest else with_char c (starts_token s) rest

abbrev four_tokens : JnStorage → List Bytes → Bool
four_tokens st (lv ∷ ns ∷ ct ∷ cid ∷ []) =
    eqb_ℤ st.info.namespace_id (atoi ns) && bytes_eq st.info.cluster_id cid
four_tokens st _ = false

-- `checkStorageInfo`
unfoldable pub check_storage_info : JnStorage → Bytes → Bool
unfolding tokens
check_storage_info st text = four_tokens st (tokens text)

-- What a request is answered with: a status alone, or a file.
pub data Reply : Type 0 where
  status : ℕ → Reply
  file : Bytes → Reply

-- The code of `getLogFile` is an error, no file, or a file.
abbrev log_reply : Option EditLogFile → Reply
log_reply none = status 404
log_reply (some l) = if is_initialized l then file l.full_file_name else status 404

-- `mg_get_var` for a name and the size of a buffer, as the text that it leaves there.
abbrev pub Variables : Type 0
Variables = Bytes → ℕ → Bytes

module _ ⦃host : Host⦄ where
  abbrev pub log_found : JnStorage → ℤ → host.Disk → Reply
  log_found st txid d = elim (get_log_file st txid d) [
    | done l ↦ log_reply (some l)
    | fail _ ↦ log_reply none
  ]

  -- What is done with the journal.
  unfoldable pub find_segment : Bytes → Bytes → Call Reply
  unfolding check_storage_info
  find_segment storage_info segment_txid j = (
    done (
        if check_storage_info j.storage storage_info
        then log_found j.storage ((strtol segment_txid).0) j.disk
        else status 412),
    j,
  )

  -- `send_reply`; the code of `getOrCreateJournal` is not looked at.
  unfoldable pub send_reply : Variables → NodeCall Reply
  unfolding find_segment
  send_reply var = do
    let jid = var (codes "jid") 100
    let segment_txid = var (codes "segmentTxId") 100
    let storage_info = var (codes "storageInfo") 500
    _ ← ignore_code (get_or_create_journal jid)
    through_pointer jid (find_segment storage_info segment_txid)

  -- `ev_handler` for a request; `none` where it does not handle the request.
  unfoldable pub ev_handler : Bytes → Variables → NodeCall (Option Reply)
  unfolding send_reply
  ev_handler uri var =
      if bytes_eq uri (codes "/getJournal")
      then (do reply ← send_reply var; pure (some reply))
      else pure none
