-- ===== src/Journal/Recovery/Decision.antt =====
-- What an accepted recovery may replace.
use jn_server_cc.Base.{ℕ, ◌≡◌, ◌≢◌, ◌⊎◌, true, some, Bytes, ℤ, ◌≤◌, arith, done, ◌>>=◌}
use jn_server_cc.Host.{Host}
use jn_server_cc.Messages.{SegmentState, to_u64}
use jn_server_cc.Journal.State.{Journal, RequestInfo, get_committed}
use jn_server_cc.Journal.Recovery.{would_discard, synchronize}

module _ ⦃host : Host⦄ where
  -- The transaction lies in the segment.
  abbrev pub Holds : SegmentState → ℕ → Type 0
  Holds s t = (s.start_txid ≤ t) × (t ≤ s.end_txid)

  -- Where a recovery names a segment that ends elsewhere than the segment on disk, and the
  -- committed txid can be read, synchronizing succeeds only if the segment on disk is in
  -- progress, and only if the named segment holds the committed transaction whenever the segment
  -- on disk does.
  pub synchronize_safe :
      (req : RequestInfo) (seg cur : SegmentState) (url f : Bytes) (cti : ℤ) (j : Journal)
      → cur.end_txid ≢ seg.end_txid
      → (get_committed j).0 ≡ done cti
      → (synchronize req seg url (some cur) j).0 ≡ done f
      → (cur.is_in_progress ≡ true) × ((¬ Holds cur (to_u64 cti)) ⊎ Holds seg (to_u64 cti))
  unfolding synchronize would_discard get_committed ◌>>=◌
  synchronize_safe req seg cur url f cti j ne c h = ground arith
