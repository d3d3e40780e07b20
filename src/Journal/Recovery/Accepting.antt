-- ===== src/Journal/Recovery/Accepting.antt =====
-- What `acceptRecovery` leaves of the decision.
use jn_server_cc.Base.{
  ℕ, zero, suc, ◌≡◌, ◌≢◌, ◌<◌, ◌^◌, ◌⊎◌, ◌∙◌, sym, refl, ap, inl, inr, true, false, Option, none,
  some, Bytes, codes, [], ◌++◌, is_empty, ℤ, arith, done, not, when, ◌>>=◌, >>=-eq-done,
  Option-cases, Bool-cases,
}
use jn_server_cc.Base.Leaves.{Leaves, Leaves->>=}
use jn_server_cc.Host.{Host}
use jn_server_cc.Host.Laws.{FilesKeep, DecisionsKeep, WritesWork, LeavesAlone, SameFile}
use jn_server_cc.Messages.{SegmentState, PaxosData, to_u64, to_long}
use jn_server_cc.Stream.{open_stream, is_open, put, close}
use jn_server_cc.Files.{clear_target, replace_file, file_rename}
use jn_server_cc.Storage.{
  JnStorage, get_paxos_file, get_sync_log_temporary_file, get_in_progress_edit_log,
}
use jn_server_cc.Journal.State.{Journal, Call, RequestInfo, get_committed, changing}
use jn_server_cc.Journal.Recovery.{
  persisted, persist_paxos_data, get_persisted_paxos_data, synchronize, sync_log, accept_recovery,
  raise_highest, lower_highest,
}
use jn_server_cc.Journal.Recovery.Persisting.{persisted_renamed, get_persisted_there}

module _ ⦃host : Host⦄ where
  -- The file is there and has the content.
  abbrev pub Content : Bytes → Bytes → host.Disk → Type 0
  Content f text d = (host.read_file f d ≡ some text) × (host.is_regular f d ≡ some true)

  persisted_unopened :
      (f text : Bytes) (j : Journal) (u : Unit {0})
      → (host.open_out (f ++ codes ".tmp") j.disk).0 ≡ none
      → (persisted f (some text) j).0 ≢ done u
  unfolding persisted open_stream is_open
  persisted_unopened f text j u e h = ground arith

  persisted_unrenamed :
      (f text : Bytes) (j : Journal) (d1 d2 : host.Disk) (o : host.Handle) (u : Unit {0})
      → is_empty text ≡ false
      → host.open_out (f ++ codes ".tmp") j.disk ≡ (some o, d1)
      → host.write_at o 0 text d1 ≡ (true, d2)
      → (host.rename (f ++ codes ".tmp") f (host.close_out o d2)).0 ≡ false
      → (persisted f (some text) j).0 ≢ done u
  unfolding persisted open_stream is_open put close file_rename
  persisted_unrenamed f text j d1 d2 o u some_text opens writes r h = ground arith

  persisted-Content :
      (keep : FilesKeep) (decisions : DecisionsKeep) (works : WritesWork) (f text : Bytes)
      (j : Journal) (u : Unit {0})
      → is_empty text ≡ false
      → (persisted f (some text) j).0 ≡ done u
      → Content f text (persisted f (some text) j).1.disk
        × ((persisted f (some text) j).1.storage ≡ j.storage)
  unfolding persisted open_stream is_open put close file_rename
  persisted-Content keep decisions works f text j u some_text h =
      let tmp = f ++ codes ".tmp" in
      let d1 = (host.open_out tmp j.disk).1 in
      elim (Option-cases (host.open_out tmp j.disk).0) [
        | inl e ↦ absurd (persisted_unopened f text j u e h)
        | inr (o, e) ↦
            let d2 = (host.write_at o 0 text d1).1 in
            let d3 = (host.rename tmp f (host.close_out o d2)).1 in
            let opens : host.open_out tmp j.disk ≡ (some o, d1) = ap (λ x. (x, d1)) e in
            let writes : host.write_at o 0 text d1 ≡ (true, d2) =
              ap (λ x. (x, d2)) (works.writes tmp text j.disk d1 o opens) in
            elim (Bool-cases (host.rename tmp f (host.close_out o d2)).0) [
              | inl r ↦
                  let renames : host.rename tmp f (host.close_out o d2) ≡ (true, d3) =
                    ap (λ x. (x, d3)) r in
                  let (content, there) = keep.write_read tmp text j.disk d1 d2 o opens writes in
                  rw (persisted_renamed f text j d1 d2 d3 o some_text opens writes renames)
                    (decisions.renamed tmp f text (host.close_out o d2) d3 renames content, refl)
              | inr r ↦ absurd (persisted_unrenamed f text j d1 d2 o u some_text opens writes r h)
            ]
      ]

  pub clear_target-Content :
      (n : ℕ) (b f text : Bytes) (d : host.Disk)
      → ((d' : host.Disk) → SameFile f (host.remove b d').1 d')
      → Content f text d
      → Content f text (clear_target n b d)
  unfolding clear_target
  clear_target-Content zero b f text d removed c = c
  clear_target-Content (suc n) b f text d removed (c, r) =
      let (c2, r2) = removed d in
      let rest = clear_target-Content n b f text (host.remove b d).1 removed (c2 ∙ c, r2 ∙ r) in
      ground arith

  replace_file-Content :
      (a b f text : Bytes) (d : host.Disk)
      → LeavesAlone a b f
      → Content f text d
      → Content f text (replace_file a b d).1
  unfolding replace_file file_rename
  replace_file-Content a b f text d alone c =
      let (c1, r1) = clear_target-Content 5 b f text d alone.removed c in
      let (c2, r2) = alone.renamed (clear_target 5 b d) in (c2 ∙ c1, r2 ∙ r1)

  -- What is synchronized is nothing, or the temporary file of the segment.
  synchronized :
      (req : RequestInfo) (seg : SegmentState) (url name : Bytes) (info : Option SegmentState)
      (j : Journal)
      → (synchronize req seg url info j).0 ≡ done name
      → (name ≡ [])
        ⊎ (name
            ≡ get_sync_log_temporary_file
                (synchronize req seg url info j).1.storage
                (to_long seg.start_txid)
                req.epoch)
  unfolding synchronize sync_log raise_highest lower_highest get_committed ◌>>=◌
  synchronized req seg url name none j h = ground arith
  synchronized req seg url name (some cur) j h = ground arith

  to_u64-to_long : (n : ℕ) → n < 2 ^ 64 → to_u64 (to_long n) ≡ n
  to_u64-to_long n h = ground arith

  -- The decision of a request.
  abbrev pub decision_of : RequestInfo → SegmentState → PaxosData
  decision_of req seg = record { segment_state = seg; accepted_in_epoch = to_u64 req.epoch }

  -- The decision about a segment is the one that is read.
  abbrev pub IsPersisted : ℤ → PaxosData → Journal → Type 0
  IsPersisted txid p j = get_persisted_paxos_data txid j ≡ (done (some p), j)

  module _ (keep : FilesKeep) (decisions : DecisionsKeep) (works : WritesWork) (req : RequestInfo)
      (seg : SegmentState) (text : Bytes)
      (alone : (s : JnStorage)
        → LeavesAlone
            (get_sync_log_temporary_file s (to_long seg.start_txid) req.epoch)
            (get_in_progress_edit_log s (to_long seg.start_txid))
            (get_paxos_file s (to_long seg.start_txid)))
      (small : seg.start_txid < 2 ^ 64) (ser : host.serialize (decision_of req seg) ≡ some text)
      (some_text : is_empty text ≡ false) where
    abbrev placing : Bytes → Call (Unit {0})
    placing synced = when (not (is_empty synced)) (
        changing (λ j.
          replace_file synced (get_in_progress_edit_log j.storage (to_long seg.start_txid)) j.disk))

    read_back :
        (j : Journal)
        → Content (get_paxos_file j.storage (to_long seg.start_txid)) text j.disk
        → IsPersisted (to_long seg.start_txid) (decision_of req seg) j
    read_back j (content, there) =
        get_persisted_there (to_long seg.start_txid) (decision_of req seg) text j there content
          (decisions.parsed (decision_of req seg) text ser)
          (sym (to_u64-to_long seg.start_txid small))

    placing-Content :
        (synced : Bytes) (j : Journal)
        → (synced ≡ [])
          ⊎ (synced ≡ get_sync_log_temporary_file j.storage (to_long seg.start_txid) req.epoch)
        → Content (get_paxos_file j.storage (to_long seg.start_txid)) text j.disk
        → IsPersisted (to_long seg.start_txid) (decision_of req seg) (placing synced j).1
    unfolding changing ◌>>=◌
    placing-Content synced j (inl e) c = rw (e) (read_back j c)
    placing-Content synced j (inr e) c = elim (Bool-cases (is_empty synced)) [
      | inl b ↦ rw (b) (read_back j c)
      | inr b ↦
          let to = get_in_progress_edit_log j.storage (to_long seg.start_txid) in
          let f = get_paxos_file j.storage (to_long seg.start_txid) in
          let left : LeavesAlone synced to f = rw (e) (alone j.storage) in
          rw (b) (
            read_back (record j { disk = (replace_file synced to j.disk).1 })
              (replace_file-Content synced to f text j.disk left c))
    ]

    persist_paxos_data-Content :
        (j : Journal) (u : Unit {0})
        → (persist_paxos_data (to_long seg.start_txid) (decision_of req seg) j).0 ≡ done u
        → Content
            (get_paxos_file j.storage (to_long seg.start_txid))
            text
            (persist_paxos_data (to_long seg.start_txid) (decision_of req seg) j).1.disk
          × ((persist_paxos_data (to_long seg.start_txid) (decision_of req seg) j).1.storage
              ≡ j.storage)
    unfolding persist_paxos_data ◌>>=◌
    persist_paxos_data-Content j u h = rw (ser) (
        persisted-Content keep decisions works (get_paxos_file j.storage (to_long seg.start_txid))
          text j u some_text (rw (ser) at h))

    last_steps :
        (url : Bytes) (info : Option SegmentState)
        → Leaves (IsPersisted (to_long seg.start_txid) (decision_of req seg)) (
            synchronize req seg url info >>= λ synced.
            (persist_paxos_data (to_long seg.start_txid) (decision_of req seg) >>= λ _.
            placing synced))
    last_steps url info = record {
      at = λ j u h.
          let (synced, e1, h1, q1) = >>=-eq-done (synchronize req seg url info) _ j u h in
          let j1 = (synchronize req seg url info j).1 in
          let (a, e2, h2, q2) =
            >>=-eq-done (persist_paxos_data (to_long seg.start_txid) (decision_of req seg)) _ j1 u
              h1 in
          let j2 = (persist_paxos_data (to_long seg.start_txid) (decision_of req seg) j1).1 in
          let (c, same) = persist_paxos_data-Content j1 a e2 in
          rw (q1, q2)
            (placing-Content synced j2 (rw (same) (synchronized req seg url synced info j e1))
              (rw (same) c));
    }

    -- After an acceptRecovery that succeeds, what is read as the decision about its segment is
    -- the segment that was accepted, with the epoch of the request: where the message serializes
    -- to some bytes and what is serialized parses as the message, files keep what is written and
    -- renamed, a file that has been opened can be written, and what is done to the files of the
    -- segment leaves the file of the decision alone. The first txid is below 2 ^ 64.
    pub accept_recovery-IsPersisted :
        (url : Bytes) (j : Journal)
        → (accept_recovery req seg url j).0 ≡ done tt
        → IsPersisted
            (to_long seg.start_txid)
            (decision_of req seg)
            (accept_recovery req seg url j).1
    unfolding accept_recovery
    accept_recovery-IsPersisted url j h =
        let all : Leaves (IsPersisted (to_long seg.start_txid) (decision_of req seg))
            (accept_recovery req seg url) =
          search (Leaves->>=, last_steps) depth 16 in
        all.at j tt h
