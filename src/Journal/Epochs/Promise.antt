-- ===== src/Journal/Epochs/Promise.antt =====
-- The promised epoch and the serial number under a call: which calls leave them alone, and which
-- only move them forward.
use jn_server_cc.Base.{◌≡◌, refl, ◌∙◌, ◌⊎◌, inr, Bool, true, ℤ, ◌≤ℤ◌, ◌<ℤ◌, arith, Outcome}
use jn_server_cc.Base.Moves.{Moves, IsPreorder, moves_rules}
use jn_server_cc.Host.{Host}
use jn_server_cc.Journal.State.{
  Journal, Call, reading, changing, get_writer, set_writer, get_committed, set_committed,
}

module _ ⦃host : Host⦄ where
  abbrev pub promised_epoch : Journal → ℤ
  promised_epoch j = j.last_promised_epoch.value

  abbrev pub IsLoaded : Journal → Type 0
  IsLoaded j = j.last_promised_epoch.loaded ≡ true

  -- The promise is higher, or it is the same and the serial number is not lower.
  abbrev pub Later : Journal → Journal → Type 0
  Later j k =
      (promised_epoch j <ℤ promised_epoch k)
      ⊎ ((promised_epoch j ≡ promised_epoch k)
          × (j.current_epoch_ipc_serial ≤ℤ k.current_epoch_ipc_serial))

  pub Later-trans : (j k l : Journal) → Later j k → Later k l → Later j l
  Later-trans j k l a b = ground arith

  -- From a loaded promise on, it moves forward.
  pub record Forward (j k : Journal) : Type 0 where
    pub from_loaded : IsLoaded j → IsLoaded k × Later j k

  pub Forward-preorder : IsPreorder Forward
  Forward-preorder = record {
    same = λ s. record { from_loaded = λ l. (l, inr (refl, omega arith)) };
    chain = λ s t u a b. record {
      from_loaded = λ l.
          let (lt, st) = a.from_loaded l in
          let (lu, tu) = b.from_loaded lt in (lu, Later-trans s t u st tu);
    };
  }

  -- The promise and the serial number stay.
  pub record SameEpoch (j k : Journal) : Type 0 where
    pub promise : k.last_promised_epoch ≡ j.last_promised_epoch
    pub serial : k.current_epoch_ipc_serial ≡ j.current_epoch_ipc_serial

  pub SameEpoch-preorder : IsPreorder SameEpoch
  SameEpoch-preorder = record {
    same = λ s. record { promise = refl; serial = refl };
    chain = λ s t u a b. record { promise = b.promise ∙ a.promise; serial = b.serial ∙ a.serial };
  }

  pub Forward-of_still : (j k : Journal) → SameEpoch j k → Forward j k
  Forward-of_still j k h = record {
    from_loaded = λ l. rw (h.promise, h.serial) (l, inr (refl, omega arith));
  }

  pub Forward-of_same : {A : Type 0} (m : Call A) → Moves SameEpoch m → Moves Forward m
  Forward-of_same m h = record { at = λ j. Forward-of_still j (m j).1 (h.at j) }

  pub reading-SameEpoch : {A : Type 0} (f : Journal → Outcome A) → Moves SameEpoch (reading f)
  unfolding reading
  reading-SameEpoch f = record { at = λ s. record { promise = refl; serial = refl } }

  pub changing-SameEpoch : (f : Journal → Bool × host.Disk) → Moves SameEpoch (changing f)
  unfolding changing
  changing-SameEpoch f = record { at = λ s. record { promise = refl; serial = refl } }

  pub get_writer-SameEpoch : Moves SameEpoch get_writer
  unfolding get_writer
  get_writer-SameEpoch = record { at = λ s. record { promise = refl; serial = refl } }

  pub set_writer-SameEpoch : (v : ℤ) → Moves SameEpoch (set_writer v)
  unfolding set_writer
  set_writer-SameEpoch v = record { at = λ s. record { promise = refl; serial = refl } }

  pub get_committed-SameEpoch : Moves SameEpoch get_committed
  unfolding get_committed
  get_committed-SameEpoch = record { at = λ s. record { promise = refl; serial = refl } }

  pub set_committed-SameEpoch : (v : ℤ) → Moves SameEpoch (set_committed v)
  unfolding set_committed
  set_committed-SameEpoch v = record { at = λ s. record { promise = refl; serial = refl } }

pub ruleset same_epoch_rules = (
  moves_rules, SameEpoch-preorder, reading-SameEpoch, changing-SameEpoch, get_writer-SameEpoch,
  set_writer-SameEpoch, get_committed-SameEpoch, set_committed-SameEpoch,
)
