-- ===== src/Server/Once.antt =====
-- `newEpoch` and `getJournalState` of a node, with requests and downloads in between.
use jn_server_cc.Base.{
  ℕ, ◌≡◌, arith, sym, ◌∙◌, Outcome, refl, ap, List, Option-cases, inl, inr, some, Bytes, ◌≤ℤ◌, done,
  fail, error, pure, ◌>>=◌, >>=-eq-done,
}
use jn_server_cc.Journal.Epochs.Promise.{promised_epoch, IsLoaded, Later}
use jn_server_cc.Rpc.Translator.{state, get_journal_state}
use jn_server_cc.Dict.{find}
use jn_server_cc.Dict.Laws.{find-insert_self}
use jn_server_cc.Host.{Host}
use jn_server_cc.Messages.{to_long, to_u64}
use jn_server_cc.Journal.State.{Journal, get_promised, Call}
use jn_server_cc.Journal.Scanning
use jn_server_cc.Journal.Requests.Once.{Promises, new_epoch_parts, new_epoch_stale, not_below}
use jn_server_cc.Node.{JournalNode, get_or_create_journal, through_pointer, on_journal}
use jn_server_cc.Node.Others.{get_or_create_found}
use jn_server_cc.Rpc
use jn_server_cc.Rpc.{JournalState}
use jn_server_cc.Journal.Opening.{get_last_promised_epoch}
use jn_server_cc.LongFile.Persistent
use jn_server_cc.EditLog.Scan.{to_long-to_u64}
use jn_server_cc.Text.RoundTrip.{IsLong}
use jn_server_cc.Rpc.Translator.{
  NamespaceInfoProto, Response, new_epoch, last_segment, namespace_info, with_response, handle,
}
use jn_server_cc.Server.{Event, serve_all}
use jn_server_cc.Server.Journals.{SparesAll, serve_all-Later}

epoch_of_report :
    {a b : JournalState}
    → ◌≡◌ {A = Outcome Response} (done (state a)) (done (state b))
    → a.last_promised_epoch ≡ b.last_promised_epoch
epoch_of_report {a} {b} h =
    let e : a ≡ b = cc h in ap (λ (x : JournalState). x.last_promised_epoch) e

module _ ⦃host : Host⦄ where
  -- A call that returns has run on a journal, which is in the map afterwards as the call left it.
  through_pointer_done :
      {A : Type 0} (jid : Bytes) (m : Call A) (n : JournalNode) (a : A)
      → (through_pointer jid m n).0 ≡ done a
      → (j : Journal) × ((m j).0 ≡ done a)
        × (find jid (through_pointer jid m n).1.journals_by_id ≡ some (m j).1)
  unfolding through_pointer
  through_pointer_done jid m n a h = elim (Option-cases (find jid n.journals_by_id)) [
    | inl e ↦ absurd (cc (rw (through_pointer, e) at h))
    | inr (j, e) ↦
        let j0 = record j { disk = n.disk } in
        (
          j0,
          rw (through_pointer, e) at h,
          rw (through_pointer, e) (find-insert_self jid (m j0).1 n.journals_by_id),
        )
  ]

  on_journal_done :
      {A : Type 0} (jid : Bytes) (m : Call A) (n : JournalNode) (a : A)
      → (on_journal jid m n).0 ≡ done a
      → (j : Journal) × ((m j).0 ≡ done a)
        × (find jid (on_journal jid m n).1.journals_by_id ≡ some (m j).1)
  unfolding on_journal
  on_journal_done jid m n a h =
      let (u, _, h', q) =
        >>=-eq-done (get_or_create_journal jid) (λ _. through_pointer jid m) n a h in
      rw q (through_pointer_done jid m (get_or_create_journal jid n).1 a h')

  pub on_journal_refused :
      {A : Type 0} (jid : Bytes) (m : Call A) (n : JournalNode) (j : Journal)
      → find jid n.journals_by_id ≡ some j
      → (m (record j { disk = n.disk })).0 ≡ fail error
      → (on_journal jid m n).0 ≡ fail error
  unfolding on_journal through_pointer ◌>>=◌
  on_journal_refused jid m n j e h = rw (get_or_create_found jid n j e, through_pointer, e, h) refl

  pub new_epoch_handled :
      (jid : Bytes) (ns : NamespaceInfoProto) (epoch : ℕ) (n : JournalNode) (resp : Response)
      → (handle (new_epoch jid ns epoch) n).0 ≡ done resp
      → (j : Journal) × (find jid (handle (new_epoch jid ns epoch) n).1.journals_by_id ≡ some j)
        × Promises (to_long epoch) j
  unfolding handle with_response Rpc.new_epoch on_journal ◌>>=◌
  new_epoch_handled jid ns epoch n resp h =
      let m = Scanning.new_epoch (namespace_info ns) (to_long epoch) in
      let (last, e, h', q) = >>=-eq-done (on_journal jid m) (λ r. pure (last_segment r)) n resp h in
      let (j, ok, there) = on_journal_done jid m n last e in
      ((m j).1, rw q there, (new_epoch_parts (namespace_info ns) (to_long epoch) j last ok).0)

  pub new_epoch_of_stale :
      (jid : Bytes) (ns : NamespaceInfoProto) (epoch : ℕ) (n : JournalNode) (k : Journal)
      → find jid n.journals_by_id ≡ some k
      → IsLoaded k
      → to_long epoch ≤ℤ promised_epoch k
      → (handle (new_epoch jid ns epoch) n).0 ≡ fail error
  unfolding handle with_response Rpc.new_epoch ◌>>=◌
  new_epoch_of_stale jid ns epoch n k there l below =
      let k0 = record k { disk = n.disk } in
      let m = Scanning.new_epoch (namespace_info ns) (to_long epoch) in
      let refused =
        on_journal_refused jid m n k there
          (ap (λ r. r.0) (new_epoch_stale (namespace_info ns) (to_long epoch) k0 l below)) in
      rw refused refl

  -- Once a node has answered newEpoch for a journal, a newEpoch for that journal with the same
  -- epoch or an older one gets an exception, over any sequence of requests, of whichever
  -- journals, and downloads in between, none of which is a request to format that journal.
  pub handle_epoch_once :
      (jid : Bytes) (ns ns' : NamespaceInfoProto) (old new : ℕ) (resp : Response) (es : List Event)
      (n : JournalNode)
      → (handle (new_epoch jid ns old) n).0 ≡ done resp
      → SparesAll jid es
      → to_long new ≤ℤ to_long old
      → (handle (new_epoch jid ns' new) (serve_all es (handle (new_epoch jid ns old) n).1)).0
        ≡ fail error
  handle_epoch_once jid ns ns' old new resp es n h spares below =
      let (j, there, p) = new_epoch_handled jid ns old n resp h in
      let n' = (handle (new_epoch jid ns old) n).1 in
      let (k, there', l, later) = serve_all-Later jid es n' j spares there p.0 in
      new_epoch_of_stale jid ns' new (serve_all es n') k there' l
        (not_below (to_long old) (to_long new) j k p later below)

  pub state_reported :
      (jid : Bytes) (n : JournalNode) (j : Journal)
      → find jid n.journals_by_id ≡ some j
      → IsLoaded j
      → (handle (get_journal_state jid) n).0
        ≡ done (
            state (record {
              last_promised_epoch = to_u64 (promised_epoch j);
              http_port = n.http_port;
              from_url = n.http_server_uri;
            }))
  unfolding handle with_response Rpc.get_journal_state on_journal through_pointer
      get_last_promised_epoch get_promised Persistent.get ◌>>=◌
  state_reported jid n j e l = rw (get_or_create_found jid n j e, through_pointer, e, l) refl

  promise_kept : (j k : Journal) → Later j k → promised_epoch j ≤ℤ promised_epoch k
  promise_kept j k h = ground arith

  later_above :
      (epoch : ℕ) (j k : Journal)
      → to_long epoch ≡ promised_epoch j
      → Later j k
      → to_long epoch ≤ℤ promised_epoch k
  later_above epoch j k e h = rw e (promise_kept j k h)

  -- The epoch that getJournalState reports of a journal of the node whose promise is loaded and a
  -- long is that promise, through the conversion to an unsigned number and back, and a later
  -- newEpoch with the reported epoch gets an exception, over any sequence of requests and
  -- downloads in between, none of which is a request to format that journal.
  pub handle_reported_epoch :
      (jid : Bytes) (ns : NamespaceInfoProto) (n : JournalNode) (j : Journal)
      (reported : JournalState) (es : List Event)
      → find jid n.journals_by_id ≡ some j
      → IsLoaded j
      → IsLong (promised_epoch j)
      → (handle (get_journal_state jid) n).0 ≡ done (state reported)
      → SparesAll jid es
      → (to_long reported.last_promised_epoch ≡ promised_epoch j)
        × ((handle (new_epoch jid ns reported.last_promised_epoch) (serve_all es n)).0 ≡ fail error)
  handle_reported_epoch jid ns n j reported es there l long h spares =
      let e = epoch_of_report (sym (state_reported jid n j there l) ∙ h) in
      let same : to_long reported.last_promised_epoch ≡ promised_epoch j =
        ap to_long (sym e) ∙ to_long-to_u64 (promised_epoch j) long in
      let (k, there', l', later) = serve_all-Later jid es n j spares there l in
      (
        same,
        new_epoch_of_stale jid ns reported.last_promised_epoch (serve_all es n) k there' l'
            (later_above reported.last_promised_epoch j k same later),
      )
