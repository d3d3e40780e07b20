-- ===== src/Journal/Manifest/Sequence.antt =====
-- The check of the manifest against a description of all pairs of logs.
use jn_server_cc.Base.{◌≡◌, refl, ◌↔◌, List, [], ◌∷◌, some, ℤ, ◌≤ℤ◌, ◌<ℤ◌, arith, done}
use jn_server_cc.EditLog.File.{EditLogFile}
use jn_server_cc.Journal.Manifest.{logs_after, check_if_logs_in_sequence}

-- Every log begins above a txid.
abbrev pub AllAbove : ℤ → List EditLogFile → Type 0
AllAbove t [] = Unit {0}
AllAbove t (l ∷ ls) = (t <ℤ l.first_txid) × AllAbove t ls

-- Every log lies above all the logs before it.
abbrev pub IsDisjoint : List EditLogFile → Type 0
IsDisjoint [] = Unit {0}
IsDisjoint (l ∷ ls) = AllAbove l.last_txid ls × IsDisjoint ls

-- No log ends below its first txid.
abbrev pub AreRanges : List EditLogFile → Type 0
AreRanges [] = Unit {0}
AreRanges (l ∷ ls) = (l.first_txid ≤ℤ l.last_txid) × AreRanges ls

logs_after-AllAbove :
    (t : ℤ) (p : EditLogFile) (ls : List EditLogFile)
    → AreRanges ls
    → t ≤ℤ p.last_txid
    → logs_after (some p) ls ≡ done tt
    → AllAbove t ls
unfolding logs_after
logs_after-AllAbove t p [] ok h e = tt
logs_after-AllAbove t p (l ∷ ls) ok h e = ground (arith, logs_after-AllAbove t l ls ok.1)

logs_after-IsDisjoint :
    (p : EditLogFile) (ls : List EditLogFile)
    → AreRanges ls
    → logs_after (some p) ls ≡ done tt
    → IsDisjoint ls
unfolding logs_after
logs_after-IsDisjoint p [] ok e = tt
logs_after-IsDisjoint p (l ∷ ls) ok e =
    ground (arith, logs_after-AllAbove l.last_txid l ls ok.1, logs_after-IsDisjoint l ls ok.1)

logs_after_complete :
    (p : EditLogFile) (ls : List EditLogFile)
    → AllAbove p.last_txid ls
    → IsDisjoint ls
    → logs_after (some p) ls ≡ done tt
unfolding logs_after
logs_after_complete p [] a h = refl
logs_after_complete p (l ∷ ls) a h = ground (arith, logs_after_complete l ls h.0 h.1)

-- For logs none of which ends below its first txid, the check of the manifest, which compares
-- neighbours only, passes exactly when every log lies above all the logs before it.
pub check-IsDisjoint :
    (ls : List EditLogFile)
    → AreRanges ls
    → (check_if_logs_in_sequence ls ≡ done tt) ↔ IsDisjoint ls
unfolding check_if_logs_in_sequence logs_after
check-IsDisjoint [] ok = (λ e. tt, λ h. refl)
check-IsDisjoint (l ∷ ls) ok = (
  λ e. (
    logs_after-AllAbove l.last_txid l ls ok.1 (omega arith) e,
    logs_after-IsDisjoint l ls ok.1 e,
  ),
  λ h. logs_after_complete l ls h.0 h.1,
)
