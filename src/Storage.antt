-- ===== src/Storage.antt =====
-- util/StorageInfo.h, util/NamespaceInfo.h and src/JNStorage: the directory of a journal.
pub mod Analysed
use jn_server_cc.Base.{
  ℕ, Bool, true, false, ◌||◌, not, [], ◌∷◌, ◌++◌, Option, none, some, Bytes, codes, bytes_eq,
  is_empty, if◌then◌else◌, ℤ, pos, negsuc, ltb_ℤ, eqb_ℤ, Outcome, Action, done, fail, error, pure,
  gets, modify, ◌>>=◌, ◌>>◌,
}
use jn_server_cc.Text.{print_long, atoi, strtoul}
use jn_server_cc.Messages.{to_long}
use jn_server_cc.Host.{Host}
use jn_server_cc.Stream.{open_stream, is_open, put, close}
use jn_server_cc.Files.{
  get_in_progress_edits_file, file_exists, dir_exists, try_to_acquire_lockfile,
}

-- StorageInfo; a NamespaceInfo adds a block pool id that nothing reads.
pub record StorageInfo : Type 0 where
  pub layout_version : ℤ
  pub cluster_id : Bytes
  pub namespace_id : ℤ
  pub c_time : ℕ

pub data StorageState : Type 0 where
  non_existent not_formatted complete_upgrade recover_upgrade complete_finalize : StorageState
  complete_rollback recover_rollback complete_checkpoint recover_checkpoint normal : StorageState

pub record JnStorage : Type 0 where
  pub info : StorageInfo
  pub log_dir : Bytes
  pub current_dir : Bytes
  pub state : StorageState
  pub lock_file_fd : ℤ

-- The paths of the files, in `current` or in the directory itself.
unfoldable pub get_in_progress_edit_log : JnStorage → ℤ → Bytes
get_in_progress_edit_log s start = get_in_progress_edits_file s.current_dir start

unfoldable pub get_paxos_dir : JnStorage → Bytes
get_paxos_dir s = s.current_dir ++ (codes "/" ++ codes "paxos")

unfoldable pub get_paxos_file : JnStorage → ℤ → Bytes
unfolding get_paxos_dir
get_paxos_file s segment = get_paxos_dir s ++ (codes "/" ++ print_long segment)

unfoldable pub get_sync_log_temporary_file : JnStorage → ℤ → ℤ → Bytes
unfolding get_in_progress_edit_log
get_sync_log_temporary_file s segment epoch =
    get_in_progress_edit_log s segment ++ (codes ".epoch=" ++ print_long epoch)

unfoldable pub get_version_file : JnStorage → Bytes
get_version_file s = s.current_dir ++ (codes "/" ++ codes "VERSION")

unfoldable pub get_lock_file : JnStorage → Bytes
get_lock_file s = s.log_dir ++ (codes "/" ++ codes "in_use.lock")

unfoldable pub is_formatted : JnStorage → Bool
is_formatted s = elim s.state [ normal ↦ true | _ ↦ false ]

-- `checkConsistentNamespace`
unfoldable pub check_consistent_namespace : JnStorage → StorageInfo → Outcome (Unit {0})
check_consistent_namespace s ns =
    if not (eqb_ℤ ns.namespace_id s.info.namespace_id)
    then fail error
    else if not (bytes_eq ns.cluster_id s.info.cluster_id)
    then fail error
    else done tt

-- The text of the VERSION file.
unfoldable pub properties_text : StorageInfo → Bytes
properties_text i =
    codes "layoutVersion="
    ++ (print_long i.layout_version
        ++ (10 ∷ codes "storageType=JOURNAL_NODE")
        ++ (10 ∷ codes "namespaceID=")
        ++ (print_long i.namespace_id ++ (10 ∷ codes "clusterID="))
        ++ (i.cluster_id ++ (10 ∷ codes "cTime="))
        ++ (print_long (to_long i.c_time) ++ 10 ∷ []))

module _ ⦃host : Host⦄ where
  -- The calls on a storage directory, with the files.
  abbrev pub Stored : Type 0 → Type 0
  Stored A = Action (JnStorage × host.Disk) A

  abbrev reading : {A : Type 0} → (JnStorage → host.Disk → Outcome A) → Stored A
  reading f (s, d) = (f s d, (s, d))

  unfoldable pub write_properties : Bytes → Stored (Unit {0})
  unfolding properties_text
  write_properties to (s, d) =
      let (strm, d1) = open_stream to d in
      let (_, d2) = close (put (properties_text s.info) strm) d1 in
      if is_open strm then (done tt, (s, d2)) else (fail error, (s, d1))

  -- The properties of a file as Ice reads them.
  abbrev info_of : Bytes → Outcome StorageInfo
  info_of text =
      let lv = host.property text (codes "layoutVersion") in
      let cid = host.property text (codes "clusterID") in
      let nsid = host.property text (codes "namespaceID") in
      let ct = host.property text (codes "cTime") in
      if is_empty lv || (is_empty cid || (is_empty nsid || is_empty ct))
      then fail error
      else done (record {
        layout_version = atoi lv;
        cluster_id = cid;
        namespace_id = atoi nsid;
        c_time = strtoul ct;
      })

  unfoldable pub properties_at : Bytes → host.Disk → Outcome StorageInfo
  properties_at from d = elim (host.read_file from d) [
    | none ↦ fail error
    | some text ↦ info_of text
  ]

  unfoldable pub read_properties : Bytes → Stored (Unit {0})
  unfolding properties_at
  read_properties from = do
    i ← reading (λ s d. properties_at from d)
    modify (λ (s, d). (record s { info = i }, d))

  -- Only a positive descriptor is closed, and it stays in the object.
  unfoldable pub unlock : Stored (Unit {0})
  unlock (s, d) =
      (done tt, (s, if ltb_ℤ (pos 0) s.lock_file_fd then host.close_lock s.lock_file_fd d else d))

  abbrev set_state : StorageState → Stored (Unit {0})
  set_state st = modify (λ (s, d). (record s { state = st }, d))

  -- The lock is taken where the directory is there.
  unfoldable pub acquire_lock : Stored (Unit {0})
  acquire_lock (s, d) =
      let (fd, d') = try_to_acquire_lockfile (get_lock_file s) d in
      if ltb_ℤ fd (pos 0)
      then (fail error, (s, d'))
      else (done tt, (record s { lock_file_fd = fd }, d'))

  unfoldable pub analyze_storage_directory : Stored (Unit {0})
  unfolding acquire_lock
  analyze_storage_directory = do
    there ← reading (λ s d. dir_exists s.log_dir d)
    if there
        then (do
          acquire_lock
          current ← reading (λ s d. file_exists (get_version_file s) d)
          set_state (if current then normal else not_formatted))
        else set_state non_existent

  unfoldable pub analyze_storage : Stored (Unit {0})
  unfolding analyze_storage_directory read_properties is_formatted
  analyze_storage = do
    analyze_storage_directory
    s ← gets (λ (s, d). s)
    if is_formatted s then read_properties (get_version_file s) else pure tt

  abbrev calling : (JnStorage → host.Disk → Bool × host.Disk) → Stored (Unit {0})
  calling f (s, d) = let (worked, d') = f s d in (if worked then done tt else fail error, (s, d'))

  abbrev asking : (JnStorage → host.Disk → Option Bool) → Stored Bool
  asking f (s, d) = (elim (f s d) [ none ↦ fail error | some b ↦ done b ], (s, d))

  abbrev making : (JnStorage → Bytes) → Stored (Unit {0})
  making path (s, d) =
      let (made, d') = host.create_directories (path s) d in
      (elim made [ none ↦ fail error | some _ ↦ done tt ], (s, d'))

  unfoldable pub clear_log_directory : Stored (Unit {0})
  clear_log_directory = do
    current ← asking (λ s d. host.exists s.current_dir d)
    if current then calling (λ s d. host.remove_all s.current_dir d) else pure tt
    log ← asking (λ s d. host.exists s.log_dir d)
    if log then pure tt else making (λ s. s.log_dir)
    making (λ s. s.current_dir)

  unfoldable pub create_paxos_dir : Stored (Unit {0})
  create_paxos_dir = making get_paxos_dir

  -- The code of `writeProperties` is ignored.
  abbrev ignoring : Stored (Unit {0}) → Stored (Unit {0})
  ignoring m x = let (r, x') = m x in (done tt, x')

  unfoldable pub format : StorageInfo → Stored (Unit {0})
  unfolding unlock clear_log_directory write_properties create_paxos_dir analyze_storage
  format ns = do
    modify (λ (s, d). (record s { info = ns }, d))
    unlock
    clear_log_directory
    s ← gets (λ (s, d). s)
    ignoring (write_properties (get_version_file s))
    create_paxos_dir
    analyze_storage

  abbrev pub fresh_storage : Bytes → JnStorage
  fresh_storage log_dir = record {
    info = record { layout_version = pos 0; cluster_id = []; namespace_id = pos 0; c_time = 0 };
    log_dir = log_dir;
    current_dir = log_dir ++ (codes "/" ++ codes "current");
    state = non_existent;
    lock_file_fd = negsuc 0;
  }

  -- The constructor. The state is set by `analyzeStorage` unless that fails, and then nobody uses
  -- the object.
  unfoldable pub new_storage : Bytes → host.Disk → Outcome (Unit {0}) × JnStorage × host.Disk
  unfolding analyze_storage
  new_storage log_dir d = let (r, x) = analyze_storage (fresh_storage log_dir, d) in (r, x.0, x.1)
