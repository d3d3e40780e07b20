-- ===== src/Journal/Recovery/Answering.antt =====
-- What `prepareRecovery` answers where a decision about the segment has been persisted.
use jn_server_cc.Base.{
  ℕ, ◌≡◌, ◌⊎◌, inl, inr, refl, sym, ap, ◌∙◌, false, true, Bool-cases, Option, some, none, ℤ, arith,
  done, done-injective, pure, ◌>>=◌, >>=-eq-done,
}
use jn_server_cc.Base.Leaves.{Returns, Returns->>=, Returns-pure}
use jn_server_cc.Host.{Host}
use jn_server_cc.Messages.{SegmentState, PaxosData, PrepareRecoveryResponse, to_u64}
use jn_server_cc.Journal.State.{Journal, RequestInfo, reading, get_writer, get_committed}
use jn_server_cc.Journal.Epochs.{check_formatted, check_request, abort_cur_segment}
use jn_server_cc.Journal.Scanning.{get_segment_info}
use jn_server_cc.Journal.Recovery.{
  answer, committed_field, get_persisted_paxos_data, complete_half_done, prepare_recovery,
}
use jn_server_cc.Journal.Recovery.Accepting.{IsPersisted}

module _ ⦃host : Host⦄ where
  -- The journal once the request has been checked and the current segment ended.
  abbrev pub after_checks : RequestInfo → Journal → Journal
  after_checks req j = (abort_cur_segment (check_request req (check_formatted j).1).1).1

  -- The decision with its epoch, or a finalized segment without one.
  abbrev pub Answers : PaxosData → Option SegmentState → Option ℕ → Type 0
  Answers p segment epoch =
      ((segment ≡ some p.segment_state) × (epoch ≡ some p.accepted_in_epoch))
      ⊎ ((s : SegmentState) × (segment ≡ some s) × (s.is_in_progress ≡ false) × (epoch ≡ none))

  answer_open :
      (p : PaxosData) (s : SegmentState) (f : Option SegmentState × Option ℕ)
      → s.is_in_progress ≡ true
      → answer (some p) (some s) ≡ done f
      → (some p.segment_state, some p.accepted_in_epoch) ≡ f
  unfolding answer
  answer_open p s f i h = ground arith

  answer_finalized :
      (p : PaxosData) (s : SegmentState) (f : Option SegmentState × Option ℕ)
      → s.is_in_progress ≡ false
      → answer (some p) (some s) ≡ done f
      → ◌≡◌ {A = Option SegmentState × Option ℕ} (some s, none) f
  unfolding answer
  answer_finalized p s f i h = ground arith

  answer_cases :
      (p : PaxosData) (s : SegmentState) (f : Option SegmentState × Option ℕ)
      → answer (some p) (some s) ≡ done f
      → Answers p f.0 f.1
  answer_cases p s f h = elim (Bool-cases s.is_in_progress) [
    | inl i ↦ rw (← answer_open p s f i h) (inl (refl, refl))
    | inr i ↦ rw (← answer_finalized p s f i h) (inr (s, refl, i, refl))
  ]

  answer-Answers :
      (p : PaxosData) (info : Option SegmentState) (f : Option SegmentState × Option ℕ)
      → answer (some p) info ≡ done f
      → Answers p f.0 f.1
  unfolding answer
  answer-Answers p none f h = ground arith
  answer-Answers p (some s) f h = answer_cases p s f h

  with_answer :
      (p : PaxosData) (info : Option SegmentState)
      → Returns
          (λ (r : PrepareRecoveryResponse). Answers p r.segment_state r.accepted_in_epoch)
          (reading (λ j. answer (some p) info) >>= λ fields.
            (get_writer >>= λ lwe.
            (get_committed >>= λ cti. pure (record {
              segment_state = fields.0;
              accepted_in_epoch = fields.1;
              last_writer_epoch = to_u64 lwe;
              last_committed_txid = committed_field cti;
            }))))
  unfolding reading
  with_answer p info = record {
    of = λ j r h.
        let (f, e, h', q) = >>=-eq-done (reading (λ k. answer (some p) info)) _ j r h in
        let good = answer-Answers p info f e in
        let rest : Returns
            (λ (x : PrepareRecoveryResponse). Answers p x.segment_state x.accepted_in_epoch)
            (get_writer >>= λ lwe.
              (get_committed >>= λ cti. pure (record {
                segment_state = f.0;
                accepted_in_epoch = f.1;
                last_writer_epoch = to_u64 lwe;
                last_committed_txid = committed_field cti;
              }))) =
          Returns->>= _ _ (λ lwe. Returns->>= _ _ (λ cti. Returns-pure _ good)) in
        rest.of j r h';
  }

  -- What is answered with a decision persisted.
  pub prepare_recovery-Answers :
      (req : RequestInfo) (txid : ℤ) (p : PaxosData) (j : Journal) (r : PrepareRecoveryResponse)
      → IsPersisted txid p (after_checks req j)
      → (prepare_recovery req txid j).0 ≡ done r
      → Answers p r.segment_state r.accepted_in_epoch
  unfolding prepare_recovery
  prepare_recovery-Answers req txid p j r there h =
      let (u1, e1, h1, q1) = >>=-eq-done check_formatted _ j r h in
      let j1 = (check_formatted j).1 in
      let (u2, e2, h2, q2) = >>=-eq-done (check_request req) _ j1 r h1 in
      let j2 = (check_request req j1).1 in
      let (u3, e3, h3, q3) = >>=-eq-done abort_cur_segment _ j2 r h2 in
      let j3 = (abort_cur_segment j2).1 in
      let (acc, e4, h4, q4) = >>=-eq-done (get_persisted_paxos_data txid) _ j3 r h3 in
      let found : acc ≡ some p = done-injective (sym e4 ∙ ap (λ x. x.0) there) in
      let rest =
        Returns->>= (complete_half_done (some p)) _
          (λ u. Returns->>= (get_segment_info txid) _ (λ info. with_answer p info)) in
      rest.of (get_persisted_paxos_data txid j3).1 r (rw (found) at h4)
