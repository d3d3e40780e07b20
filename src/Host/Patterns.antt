-- ===== src/Host/Patterns.antt =====
-- What the theorems rely on of boost::regex: the documented matches of the two patterns of
-- src/FileJournalManager.h, `^edits_(\d+)-(\d+)$` and `^edits_inprogress_(\d+)$`.
use jn_server_cc.Base.{◌≡◌, ◌≢◌, true, [], ◌++◌, some, none, Bytes, codes}
use jn_server_cc.Text.RoundTrip.{all_digits}
use jn_server_cc.Host.{Host}

-- One digit or more.
abbrev pub IsNumber : Bytes → Type 0
IsNumber s = (all_digits s ≡ true) × (s ≢ [])

module _ ⦃host : Host⦄ where
  pub record PatternsMatch : Type 0 where
    pub finalized :
        (a b : Bytes)
        → IsNumber a
        → IsNumber b
        → host.match_finalized (codes "edits_" ++ (a ++ (codes "-" ++ b))) ≡ some (a, b)
    pub in_progress :
        (a : Bytes) → IsNumber a → host.match_in_progress (codes "edits_inprogress_" ++ a) ≡ some a
    pub not_finalized : (a : Bytes) → host.match_finalized (codes "edits_inprogress_" ++ a) ≡ none
