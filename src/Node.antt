-- ===== src/Node.antt =====
-- src/JournalNode: the journals of the node by their ids, and its configuration.
pub mod Others
use jn_server_cc.Base.{
  ℕ, ◌%◌, ◌^◌, Bool, true, false, not, List, [], ◌∷◌, ◌++◌, Option, none, some, Bytes, codes,
  is_empty, if◌then◌else◌, ℤ, Outcome, Action, done, fail, error, abort, undefined, pure, stop,
  stop_if, gets, when, ◌>>=◌, ◌>>◌,
}
use jn_server_cc.Messages.{to_u64}
use jn_server_cc.Dict.{Dict, find, insert}
use jn_server_cc.Host.{Host}
use jn_server_cc.Files.{host_port_pair, HostPortPair, dir_exists, is_absolute_path}
use jn_server_cc.Journal.State.{Journal, Call}
use jn_server_cc.Journal.Opening.{new_journal}
use jn_server_cc.Journal.Opening

-- util/JournalNodeConfigKeys.h
abbrev pub edits_dir_key : Bytes
edits_dir_key = codes "dfs.journalnode.edits.dir"

abbrev pub edits_dir_default : Bytes
edits_dir_default = codes "/tmp/hadoop/dfs/journalnode/"

abbrev pub rpc_address_key : Bytes
rpc_address_key = codes "dfs.journalnode.rpc-address"

abbrev pub rpc_address_default : Bytes
rpc_address_default = codes "0.0.0.0:8485"

abbrev pub http_address_key : Bytes
http_address_key = codes "dfs.journalnode.http-address"

abbrev pub http_address_default : Bytes
http_address_default = codes "0.0.0.0:8480"

-- `conf->getProperty`, which is empty where the key is absent.
abbrev pub Properties : Type 0
Properties = Bytes → Bytes

unfoldable pub property_or : Properties → Bytes → Bytes → Bytes
property_or conf key default = let value = conf key in if is_empty value then default else value

-- The directory of a journal.
unfoldable pub log_dir_of : Properties → Bytes → Bytes
unfolding property_or
log_dir_of conf jid = property_or conf edits_dir_key edits_dir_default ++ (codes "/" ++ jid)

module _ ⦃host : Host⦄ where
  -- The files are those of all journals; the ones in a journal count only while it is called.
  pub record JournalNode : Type 0 where
    pub conf : Properties
    pub journals_by_id : Dict Journal
    pub http_server_uri : Bytes
    pub local_dir : Bytes
    pub http_port : ℕ
    pub disk : host.Disk

  abbrev pub NodeCall : Type 0 → Type 0
  NodeCall A = Action JournalNode A

  -- The constructor. The port goes from `int` to `unsigned int`.
  unfoldable pub new_node : Properties → host.Disk → JournalNode
  unfolding property_or
  new_node conf d =
      let uri = property_or conf http_address_key http_address_default in
      record {
        conf = conf;
        journals_by_id = [];
        http_server_uri = uri;
        local_dir = property_or conf edits_dir_key edits_dir_default;
        http_port = to_u64 ((host_port_pair uri).port) % 2 ^ 32;
        disk = d;
      }

  -- `getLogDir`; the process ends where the id is empty.
  unfoldable pub get_log_dir : Bytes → NodeCall Bytes
  unfolding log_dir_of
  get_log_dir jid = do stop_if (is_empty jid) abort; gets (λ n. log_dir_of n.conf jid)

  -- `new Journal`, and what is done with it: one that is not initialized is deleted.
  unfoldable pub create_journal : Bytes → Bytes → NodeCall (Unit {0})
  create_journal jid log_dir n =
      let (r, j) = new_journal log_dir n.disk in
      elim r [
        | fail e ↦ (fail e, record n { disk = j.disk })
        | done _ ↦
            (done tt, record n { journals_by_id = insert jid j n.journals_by_id; disk = j.disk })
      ]

  abbrev pub create_missing : Bytes → Option Journal → NodeCall (Unit {0})
  create_missing jid (some j) = pure tt
  create_missing jid none = do log_dir ← get_log_dir jid; create_journal jid log_dir

  -- `getOrCreateJournal`
  unfoldable pub get_or_create_journal : Bytes → NodeCall (Unit {0})
  unfolding get_log_dir create_journal
  get_or_create_journal jid = do
    found ← gets (λ n. find jid n.journals_by_id)
    create_missing jid found

  -- A call through the pointer of `getOrCreateJournal`. Where that has failed, the journal that it
  -- points to is deleted.
  unfoldable pub through_pointer : {A : Type 0} → Bytes → Call A → NodeCall A
  through_pointer jid m n = elim (find jid n.journals_by_id) [
    | none ↦ (fail undefined, n)
    | some j ↦
        let (r, j') = m (record j { disk = n.disk }) in
        (r, record n { journals_by_id = insert jid j' n.journals_by_id; disk = j'.disk })
  ]

  -- `getOrCreateJournal`, its code checked, and a call of the journal.
  unfoldable pub on_journal : {A : Type 0} → Bytes → Call A → NodeCall A
  on_journal jid m = do get_or_create_journal jid; through_pointer jid m

  unfoldable pub make_journal_dir : Bytes → NodeCall (Unit {0})
  make_journal_dir dir n =
      let (made, d) = host.create_directories dir n.disk in
      let n' = record n { disk = d } in
      elim made [ none ↦ (fail abort, n') | some made ↦ (if made then done tt else fail abort, n') ]

  -- `validateAndCreateJournalDir`: every failure ends the process.
  unfoldable pub validate_and_create_journal_dir : Bytes → NodeCall (Unit {0})
  unfolding make_journal_dir
  validate_and_create_journal_dir dir = do
    stop_if (not (is_absolute_path dir)) abort
    there ← gets (λ n. dir_exists dir n.disk)
    elim there [ fail _ ↦ stop abort | done there ↦ when (not there) (make_journal_dir dir) ]

  -- The part of `start` in front of the two servers.
  unfoldable pub start : NodeCall (Unit {0})
  unfolding validate_and_create_journal_dir
  start = do dir ← gets (λ n. n.local_dir); validate_and_create_journal_dir dir

  abbrev closed : Dict Journal → host.Disk → host.Disk
  closed [] d = d
  closed ((jid, j) ∷ m) d = closed m ((Opening.close (record j { disk = d })).1.disk)

  -- The destructor closes the journals.
  unfoldable pub delete_node : JournalNode → host.Disk
  delete_node n = closed n.journals_by_id n.disk
