-- ===== src/Tests/Http.antt =====
-- Downloads from a node.
use jn_server_cc.Base.{
  ◌≡◌, ◌≢◌, ◌↔◌, refl, [], ◌∷◌, none, true, Bytes, codes, pos, negsuc, arith, done, fail, error,
  undefined, ◌>>=◌,
}
use jn_server_cc.Host.Memory.{memory}
use jn_server_cc.Text.{strtol, atoi}
use jn_server_cc.Dict.{find}
use jn_server_cc.EditLog.File.{EditLogFile, new_log}
use jn_server_cc.Manager.{
  get_log_file, match_edit_logs, logs_of_names, log_of_name, logs_at, only_log,
}
use jn_server_cc.Journal.Opening.{new_journal}
use jn_server_cc.Storage.{new_storage, get_version_file}
use jn_server_cc.Files.{dir_exists, file_exists, try_to_acquire_lockfile}
use jn_server_cc.Node.{JournalNode, get_or_create_journal, get_log_dir, create_journal, property_or}
use jn_server_cc.Http.{tokens, check_storage_info, file, find_segment, send_reply}
use jn_server_cc.Http.Tokens.{colon_separated, check_storage_info_lem}
use jn_server_cc.Http.Replies.{find_segment_file, send_reply_dangling}
use jn_server_cc.Tests.Setup.{writing}
use jn_server_cc.Tests.Node.{node, cluster, variables}

abbrev cid : Bytes
cid = codes "CID-007"

named : cid ≢ []
named e = absurd (cc e)

check_storage_info_lem_example :
    (check_storage_info writing.storage (colon_separated (negsuc 56) (pos 123) (pos 0) cid) ≡ true)
    ↔ ((writing.storage.info.namespace_id ≡ pos 123) × (writing.storage.info.cluster_id ≡ cid))
check_storage_info_lem_example =
    check_storage_info_lem writing.storage (negsuc 56) (pos 123) (pos 0) cid (omega arith) refl
      named

abbrev info : Bytes
info = codes "-57:123:0:CID-007"

abbrev segment_file : Bytes
segment_file = codes "/jn/current/edits_inprogress_0000000000000000001"

segment_sent : (find_segment info (codes "1") writing).0 ≡ done (file segment_file)
unfolding find_segment check_storage_info tokens atoi strtol get_log_file match_edit_logs
    logs_of_names log_of_name logs_at only_log new_log
segment_sent = refl

find_segment_file_example :
    (check_storage_info writing.storage info ≡ true)
    × ((l : EditLogFile) × (get_log_file writing.storage (strtol (codes "1")).0 writing.disk
          ≡ done l)
        × (l.first_txid ≡ (strtol (codes "1")).0)
        × (segment_file ≡ l.full_file_name))
find_segment_file_example = find_segment_file info (codes "1") segment_file writing segment_sent

-- The directory of the journal has a VERSION file with nothing in it.
abbrev damaged : JournalNode
damaged = record node {
  journals_by_id = [];
  disk = (codes "/tmp/hadoop/dfs/journalnode//TestCluster/current/VERSION", []) ∷ [];
}

missing : find cluster damaged.journals_by_id ≡ none
unfolding find
missing = refl

refused : (get_or_create_journal cluster damaged).0 ≡ fail error
unfolding get_or_create_journal find get_log_dir create_journal property_or ◌>>=◌ new_journal
    new_storage dir_exists try_to_acquire_lockfile file_exists get_version_file
refused = refl

send_reply_dangling_example : (send_reply variables damaged).0 ≡ fail undefined
send_reply_dangling_example = send_reply_dangling variables damaged missing refused
