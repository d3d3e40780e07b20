-- ===== src/Journal/Requests/Moving.antt =====
-- A relation between journals that the checks of a request and the promise of an epoch keep to, and
-- that holds where the epochs stay, for all requests.
use jn_server_cc.Base.{Bool, Bytes, ℤ, ◌>>=◌}
use jn_server_cc.Base.Moves.{Moves, IsPreorder, Moves->>=}
use jn_server_cc.Host.{Host}
use jn_server_cc.Messages.{SegmentState}
use jn_server_cc.Storage.{StorageInfo}
use jn_server_cc.Journal.State.{Journal, Call, RequestInfo}
use jn_server_cc.Journal.Epochs.{check_formatted, check_request, check_write_request}
use jn_server_cc.Journal.Epochs.Promise.{SameEpoch, same_epoch_rules}
use jn_server_cc.Journal.Epochs.Order.{check_formatted-SameEpoch}
use jn_server_cc.Journal.Scanning.{promise_epoch, new_epoch}
use jn_server_cc.Journal.Segments.{start_log_segment, journal, finalize_log_segment}
use jn_server_cc.Journal.Recovery.{prepare_recovery, accept_recovery}
use jn_server_cc.Journal.Manifest.{get_edit_log_manifest}
use jn_server_cc.Journal.Requests.Steady.{steady_rules, write_batch-SameEpoch}

module _ ⦃host : Host⦄ where
  -- A request of a writer: the checks, and a body.
  abbrev pub guarded : {A : Type 0} → RequestInfo → Call A → Call A
  guarded req body = check_formatted >>= λ _. (check_request req >>= λ _. body)

module _ ⦃host : Host⦄ (R : Journal → Journal → Type 0) (pre : IsPreorder R)
    (same : (j k : Journal) → SameEpoch j k → R j k) where
  still : {A : Type 0} (m : Call A) → Moves SameEpoch m → Moves R m
  still m h = record { at = λ j. same j (m j).1 (h.at j) }

  formatted_first :
      {A : Type 0} (body : Call A) → Moves R body → Moves R (check_formatted >>= λ _. body)
  formatted_first body h = Moves->>= pre _ _ (still _ check_formatted-SameEpoch) (λ _. h)

  pub new_epoch-Moves :
      (ns : StorageInfo) (epoch : ℤ) → Moves R (promise_epoch epoch) → Moves R (new_epoch ns epoch)
  unfolding new_epoch
  new_epoch-Moves ns epoch promise = formatted_first _ (
      Moves->>= pre _ _ (still _ (search steady_rules))
        (λ _. Moves->>= pre _ _ promise (λ _. still _ (search steady_rules))))

  pub manifest-Moves : (since : ℤ) (ok : Bool) → Moves R (get_edit_log_manifest since ok)
  unfolding get_edit_log_manifest
  manifest-Moves since ok = formatted_first _ (still _ (search steady_rules depth 8))

  module _ (req : RequestInfo) (check : Moves R (check_request req)) where
    pub guarded-Moves :
        {A : Type 0} (body : Call A) → Moves SameEpoch body → Moves R (guarded req body)
    guarded-Moves body h = formatted_first _ (Moves->>= pre _ _ check (λ _. still _ h))

    pub start-Moves : (txid version : ℤ) → Moves R (start_log_segment req txid version)
    unfolding start_log_segment
    start-Moves txid version = guarded-Moves _ (search steady_rules depth 12)

    pub journal-Moves :
        (segment first num : ℤ) (records : Bytes) → Moves R (journal req segment first num records)
    unfolding journal check_write_request
    journal-Moves segment first num records = formatted_first _ (
        Moves->>= pre _ _ (Moves->>= pre _ _ check (λ _. still _ (search same_epoch_rules)))
          (λ _. still _ (write_batch-SameEpoch segment first num records)))

    pub finalize-Moves : (start end : ℤ) → Moves R (finalize_log_segment req start end)
    unfolding finalize_log_segment
    finalize-Moves start end = guarded-Moves _ (search steady_rules depth 12)

    pub prepare-Moves : (txid : ℤ) → Moves R (prepare_recovery req txid)
    unfolding prepare_recovery
    prepare-Moves txid = guarded-Moves _ (search steady_rules depth 14)

    pub accept-Moves : (seg : SegmentState) (url : Bytes) → Moves R (accept_recovery req seg url)
    unfolding accept_recovery
    accept-Moves seg url = guarded-Moves _ (search steady_rules depth 16)
