-- ===== src/Journal/Recovery.antt =====
-- `prepareRecovery`, `acceptRecovery` and the persisted decision: `getPersistedPaxosData`,
-- `persistPaxosData`, `completeHalfDoneAcceptRecovery`, `syncLog`.
pub mod Decision
pub mod Persisting
pub mod Accepting
pub mod Answering
pub mod HalfDone
pub mod Remembered
use jn_server_cc.Base.{
  ℕ, Bool, true, false, ◌&&◌, ◌||◌, not, [], ◌++◌, Option, none, some, Bytes, codes, is_empty, ltb,
  leb, ◌==◌, if◌then◌else◌, ℤ, eqb_ℤ, Outcome, done, fail, error, abort, pure, stop_if, gets,
  modify, when, ignore_code, ◌>>=◌, ◌>>◌,
}
use jn_server_cc.Host.{Host}
use jn_server_cc.Messages.{
  SegmentState, PaxosData, PrepareRecoveryResponse, default_segment, to_u64, to_long,
}
use jn_server_cc.Stream.{open_stream, is_open, put, close}
use jn_server_cc.Files.{file_exists, file_delete, file_rename, replace_file}
use jn_server_cc.EditLog.Transaction.{invalid_txid}
use jn_server_cc.Storage.{get_paxos_file, get_sync_log_temporary_file, get_in_progress_edit_log}
use jn_server_cc.Journal.State.{
  Journal, Call, RequestInfo, reading, changing, get_writer, get_committed,
}
use jn_server_cc.Journal.Epochs.{check_formatted, check_request, abort_cur_segment}
use jn_server_cc.Journal.Scanning.{get_segment_info}

module _ ⦃host : Host⦄ where
  -- A decision must parse, and be about the segment.
  abbrev checked : ℤ → Option PaxosData → Outcome (Option PaxosData)
  checked txid none = fail abort
  checked txid (some p) =
      if p.segment_state.start_txid == to_u64 txid then done (some p) else fail abort

  abbrev decision_in : ℤ → Option Bytes → Outcome (Option PaxosData)
  decision_in txid none = fail error
  decision_in txid (some text) = checked txid (host.parse text)

  -- `getPersistedPaxosData`: the decision about the segment, or `none`.
  unfoldable pub get_persisted_paxos_data : ℤ → Call (Option PaxosData)
  get_persisted_paxos_data txid = do
    there ← reading (λ j. file_exists (get_paxos_file j.storage txid) j.disk)
    if there
        then reading (λ j. decision_in txid (host.read_file (get_paxos_file j.storage txid) j.disk))
        else pure none

  -- `completeHalfDoneAcceptRecovery`
  unfoldable pub complete_half_done : Option PaxosData → Call (Unit {0})
  complete_half_done none = pure tt
  complete_half_done (some p) = do
    let segment = to_long p.segment_state.start_txid
    tmp ← gets (λ j. get_sync_log_temporary_file j.storage segment (to_long p.accepted_in_epoch))
    there ← reading (λ j. file_exists tmp j.disk)
    when there
        (changing (λ j. replace_file tmp (get_in_progress_edit_log j.storage segment) j.disk))

  unfoldable pub persisted : Bytes → Option Bytes → Call (Unit {0})
  persisted f none j =
      let (fos, d1) = open_stream (f ++ codes ".tmp") j.disk in
      let (_, d2) = close fos d1 in
      let (_, d3) = file_delete (f ++ codes ".tmp") d2 in
      (fail error, record j { disk = if is_open fos then d3 else d1 })
  persisted f (some text) j =
      let (fos, d1) = open_stream (f ++ codes ".tmp") j.disk in
      let (_, d2) = close (put text fos) d1 in
      let (renamed, d3) = file_rename (f ++ codes ".tmp") f d2 in
      if is_open fos
      then (if renamed then done tt else fail error, record j { disk = d3 })
      else (fail error, record j { disk = d1 })

  -- `persistPaxosData`: the decision is written beside its file and renamed over it.
  unfoldable pub persist_paxos_data : ℤ → PaxosData → Call (Unit {0})
  persist_paxos_data txid p = do
    f ← gets (λ j. get_paxos_file j.storage txid)
    persisted f (host.serialize p)

  abbrev is_ok : Option ℕ → Bool
  is_ok none = false
  is_ok (some code) = code == 200

  -- `syncLog`: the name of the downloaded file.
  unfoldable pub sync_log : RequestInfo → SegmentState → Bytes → Call Bytes
  sync_log req segment url j =
      let tmp = get_sync_log_temporary_file j.storage (to_long segment.start_txid) req.epoch in
      let (os, d1) = open_stream tmp j.disk in
      let (text, code, d2) = host.fetch url d1 in
      let (_, d3) = close (put text os) d2 in
      let (_, d4) = file_delete tmp d3 in
      if is_ok code
      then (done tmp, record j { disk = d3 })
      else (fail error, record j { disk = d4 })

  -- The segment on disk, as the message that it is where there is none.
  abbrev on_disk : Option SegmentState → SegmentState
  on_disk none = default_segment
  on_disk (some s) = s

  abbrev is_finalized : Option SegmentState → Bool
  is_finalized none = false
  is_finalized (some s) = not s.is_in_progress

  -- What `prepareRecovery` answers about the segment: a decision counts unless the segment is
  -- finalized, and then it must agree with the disk.
  unfoldable pub answer :
      Option PaxosData → Option SegmentState → Outcome (Option SegmentState × Option ℕ)
  answer none info = done (info, none)
  answer (some p) info =
      if is_finalized info
      then done (info, none)
      else if p.segment_state.end_txid == (on_disk info).end_txid
      then done (some p.segment_state, some p.accepted_in_epoch)
      else fail abort

  abbrev committed_field : ℤ → Option ℕ
  committed_field cti = if eqb_ℤ cti invalid_txid then none else some (to_u64 cti)

  -- `prepareRecovery`
  unfoldable pub prepare_recovery : RequestInfo → ℤ → Call PrepareRecoveryResponse
  prepare_recovery req txid = do
    check_formatted
    check_request req
    abort_cur_segment
    accepted ← get_persisted_paxos_data txid
    complete_half_done accepted
    info ← get_segment_info txid
    fields ← reading (λ j. answer accepted info)
    lwe ← get_writer
    cti ← get_committed
    pure (record {
      segment_state = fields.0;
      accepted_in_epoch = fields.1;
      last_writer_epoch = to_u64 lwe;
      last_committed_txid = committed_field cti;
    })

  -- The committed transaction lies in the one segment and not in the other.
  unfoldable pub would_discard : ℕ → SegmentState → SegmentState → Bool
  would_discard cti cur seg =
      (leb cur.start_txid cti && leb cti cur.end_txid)
      && (ltb cti seg.start_txid || ltb seg.end_txid cti)

  unfoldable pub raise_highest : SegmentState → Call (Unit {0})
  raise_highest seg = modify (λ j. record j {
    highest_written_txid =
        if ltb (to_u64 j.highest_written_txid) seg.end_txid
        then to_long seg.end_txid
        else j.highest_written_txid;
  })

  unfoldable pub lower_highest : SegmentState → SegmentState → Call (Unit {0})
  lower_highest cur seg = modify (λ j. record j {
    highest_written_txid =
        if leb cur.start_txid (to_u64 j.highest_written_txid)
          && leb (to_u64 j.highest_written_txid) cur.end_txid
        then to_long seg.end_txid
        else j.highest_written_txid;
  })

  -- Whether the segment has to be downloaded, and what is checked first. Both end txids are always
  -- set, so the tests of `has_endtxid` pass.
  unfoldable pub synchronize : RequestInfo → SegmentState → Bytes → Option SegmentState → Call Bytes
  unfolding sync_log would_discard
  synchronize req seg url none = do raise_highest seg; sync_log req seg url
  synchronize req seg url (some cur) = if cur.end_txid == seg.end_txid then pure [] else (do
    cti ← get_committed
    stop_if (would_discard (to_u64 cti) cur seg) abort
    stop_if (not cur.is_in_progress) abort
    lower_highest cur seg
    sync_log req seg url)

  abbrev accepted_later : Option (Option PaxosData) → ℕ → Bool
  accepted_later (some (some p)) epoch = ltb epoch p.accepted_in_epoch
  accepted_later _ epoch = false

  -- The outcome of `getSegmentInfo` where its code is ignored.
  abbrev segment_found : Option (Option SegmentState) → Option SegmentState
  segment_found none = none
  segment_found (some info) = info

  -- `acceptRecovery`
  unfoldable pub accept_recovery : RequestInfo → SegmentState → Bytes → Call (Unit {0})
  accept_recovery req seg url = do
    check_formatted
    check_request req
    abort_cur_segment
    let txid = to_long seg.start_txid
    stop_if (seg.end_txid == 0 || ltb seg.end_txid (to_u64 txid)) abort
    old ← ignore_code (get_persisted_paxos_data txid)
    let decision : PaxosData = record { segment_state = seg; accepted_in_epoch = to_u64 req.epoch }
    stop_if (accepted_later old (to_u64 req.epoch)) abort
    info ← ignore_code (get_segment_info txid)
    synced ← synchronize req seg url (segment_found info)
    persist_paxos_data txid decision
    when (not (is_empty synced))
        (changing (λ j. replace_file synced (get_in_progress_edit_log j.storage txid) j.disk))
