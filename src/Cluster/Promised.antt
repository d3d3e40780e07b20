-- ===== src/Cluster/Promised.antt =====
-- A node that has promised an epoch for a journal: what it answers from then on.
use jn_server_cc.Base.{
  ℕ, ◌≡◌, arith, sym, ap, ◌∙◌, true, false, refl, List, [], ◌∷◌, inl, inr, some, Bytes,
  eq_of_bytes_eq, ◌≤ℤ◌, ◌<ℤ◌, Outcome, done, fail, Bool-cases,
}
use jn_server_cc.Dict.{find}
use jn_server_cc.Host.{Host}
use jn_server_cc.Messages.{to_long}
use jn_server_cc.Journal.State.{Journal}
use jn_server_cc.Journal.Epochs.Promise.{promised_epoch, IsLoaded, Later}
use jn_server_cc.Node.{JournalNode}
use jn_server_cc.Rpc.Translator.{
  Message, Response, RequestInfoProto, NamespaceInfoProto, is_formatted, get_journal_state,
  new_epoch, format, journal, start_log_segment, finalize_log_segment, get_edit_log_manifest,
  prepare_recovery, accept_recovery, handle,
}
use jn_server_cc.Server.{Event, request, download, after, serve_all}
use jn_server_cc.Server.Journals.{SparesAll, serve_all-Later}
use jn_server_cc.Server.Once.{new_epoch_handled, new_epoch_of_stale}
use jn_server_cc.Cluster.{Sent, asks_epoch, older_header, returns, answered, node_after}

-- None of what is sent is a request to format the journal.
abbrev pub SparesSent : Bytes → List Sent → Type 0
SparesSent jid [] = Unit {0}
SparesSent jid (s ∷ ss) = SparesAll jid (s.event ∷ []) × SparesSent jid ss

asked :
    (jid : Bytes) (epoch : ℕ) (msg : Message)
    → asks_epoch jid epoch msg ≡ true
    → (ns : NamespaceInfoProto) × (msg ≡ new_epoch jid ns epoch)
unfolding asks_epoch
asked jid epoch (is_formatted k) h = absurd (cc h)
asked jid epoch (get_journal_state k) h = absurd (cc h)
asked jid epoch (new_epoch k ns e) h = (ns, ground (arith, eq_of_bytes_eq k jid))
asked jid epoch (format k ns) h = absurd (cc h)
asked jid epoch (journal ri segment first num records) h = absurd (cc h)
asked jid epoch (start_log_segment ri txid version) h = absurd (cc h)
asked jid epoch (finalize_log_segment ri start end) h = absurd (cc h)
asked jid epoch (get_edit_log_manifest k since ok) h = absurd (cc h)
asked jid epoch (prepare_recovery ri txid) h = absurd (cc h)
asked jid epoch (accept_recovery ri seg url) h = absurd (cc h)

pub older_header_of :
    (jid : Bytes) (epoch : ℕ) (ri : RequestInfoProto)
    → older_header jid epoch (some ri) ≡ true
    → (ri.journal_id ≡ jid) × (to_long ri.epoch <ℤ to_long epoch)
older_header_of jid epoch ri h = (ground (arith, eq_of_bytes_eq ri.journal_id jid), ground arith)

module _ ⦃host : Host⦄ where
  -- The journal is in the map, and its promise is the epoch or a later one.
  abbrev pub HasPromised : Bytes → ℕ → JournalNode → Type 0
  HasPromised jid epoch n =
      (j : Journal) × (find jid n.journals_by_id ≡ some j)
      × IsLoaded j
      × (to_long epoch ≤ℤ promised_epoch j)

  kept_up :
      (epoch : ℕ) (j k : Journal)
      → to_long epoch ≤ℤ promised_epoch j
      → Later j k
      → to_long epoch ≤ℤ promised_epoch k
  kept_up epoch j k h later = ground arith

  pub after-HasPromised :
      (jid : Bytes) (epoch : ℕ) (e : Event) (n : JournalNode)
      → SparesAll jid (e ∷ [])
      → HasPromised jid epoch n
      → HasPromised jid epoch (after e n)
  unfolding serve_all
  after-HasPromised jid epoch e n spares (j, there, l, above) =
      let (k, there', l', later) = serve_all-Later jid (e ∷ []) n j spares there l in
      (k, there', l', kept_up epoch j k above later)

  pub node_after-HasPromised :
      (jid : Bytes) (epoch : ℕ) (ss : List Sent) (n : JournalNode)
      → SparesSent jid ss
      → HasPromised jid epoch n
      → HasPromised jid epoch (node_after ss n)
  node_after-HasPromised jid epoch [] n spares p = p
  node_after-HasPromised jid epoch (s ∷ ss) n (spare, spares) p =
      node_after-HasPromised jid epoch ss (after s.event n) spares
        (after-HasPromised jid epoch s.event n spare p)

  promised_of :
      (epoch : ℕ) (j : Journal)
      → j.last_promised_epoch.value ≡ to_long epoch
      → to_long epoch ≤ℤ promised_epoch j
  promised_of epoch j e = ground arith

  done_of_returns : (r : Outcome Response) → returns r ≡ true → (a : Response) × (r ≡ done a)
  done_of_returns (done a) h = (a, refl)
  done_of_returns (fail e) h = absurd (cc h)

  -- Where newEpoch is answered, the node has promised its epoch.
  pub given-HasPromised :
      (jid : Bytes) (epoch : ℕ) (e : Event) (n : JournalNode)
      → answered (asks_epoch jid epoch) e n ≡ true
      → HasPromised jid epoch (after e n)
  unfolding answered after
  given-HasPromised jid epoch (download uri var) n h = absurd (cc h)
  given-HasPromised jid epoch (request msg) n h =
      let (ns, e) = asked jid epoch msg (ground arith) in
      let (resp, e') = done_of_returns (handle msg n).0 (ground arith) in
      let (j, there, p) =
        new_epoch_handled jid ns epoch n resp (ap (λ x. (handle x n).0) (sym e) ∙ e') in
      rw e (j, there, p.0, promised_of epoch j p.1)

  -- A node does not answer newEpoch with an epoch that it has promised.
  pub not_given_again :
      (jid : Bytes) (epoch : ℕ) (e : Event) (n : JournalNode)
      → HasPromised jid epoch n
      → answered (asks_epoch jid epoch) e n ≡ false
  unfolding answered
  not_given_again jid epoch (download uri var) n p = refl
  not_given_again jid epoch (request msg) n (j, there, l, above) =
      elim (Bool-cases (asks_epoch jid epoch msg)) [
        | inl asks ↦
            let (ns, e) = asked jid epoch msg asks in
            let refused = new_epoch_of_stale jid ns epoch n j there l above in
            rw (asks, e, refused) refl
        | inr not ↦ rw not refl
      ]
