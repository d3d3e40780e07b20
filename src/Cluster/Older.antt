-- ===== src/Cluster/Older.antt =====
-- A node that has promised an epoch refuses what writers with an older one send.
use jn_server_cc.Base.{
  ℕ, ◌≡◌, arith, ap, ◌∙◌, true, refl, inl, inr, some, Bytes, ◌≤ℤ◌, ◌<ℤ◌, Outcome, Outcome-cases,
  fail, error, Stop, pure, ◌>>=◌,
}
use jn_server_cc.Host.{Host}
use jn_server_cc.Messages.{to_long}
use jn_server_cc.Journal.State.{Journal, Call, RequestInfo}
use jn_server_cc.Journal.Epochs.Promise.{promised_epoch, IsLoaded}
use jn_server_cc.Journal.Requests.{
  Request, header, serve, journals, starts, finalizes, prepares, accepts,
}
use jn_server_cc.Journal.Requests.Replay.{serve_old}
use jn_server_cc.Node.{JournalNode, on_journal}
use jn_server_cc.Rpc
use jn_server_cc.Rpc.Translator.{
  Message, Response, RequestInfoProto, is_formatted, get_journal_state, new_epoch, format, journal,
  start_log_segment, finalize_log_segment, get_edit_log_manifest, prepare_recovery, accept_recovery,
  handle, with_response, request_info,
}
use jn_server_cc.Server.Once.{on_journal_refused}
use jn_server_cc.Cluster.{older_header, is_older}
use jn_server_cc.Cluster.Promised.{HasPromised, older_header_of}

module _ ⦃host : Host⦄ where
  is_older_still :
      (epoch : ℕ) (req : RequestInfo) (j : Journal)
      → req.epoch <ℤ to_long epoch
      → to_long epoch ≤ℤ promised_epoch j
      → req.epoch <ℤ promised_epoch j
  is_older_still epoch req j h above = ground arith

  -- An older epoch is refused with an error, not with undefined behaviour.
  older_refusal :
      (r : Request) (req : RequestInfo) (j : Journal)
      → header r ≡ some req
      → IsLoaded j
      → req.epoch <ℤ promised_epoch j
      → serve r j ≡ (fail error, j)
  older_refusal r req j e l h = ground (arith, serve_old r req j e l (inl h))

  -- A call of an older writer, as it reaches the journal, is refused.
  refused :
      {A : Type 0} (jid : Bytes) (epoch : ℕ) (ri : RequestInfoProto) (m : Call A) (n : JournalNode)
      → HasPromised jid epoch n
      → ri.journal_id ≡ jid
      → ((j : Journal)
          → IsLoaded j
          → (request_info ri).epoch <ℤ promised_epoch j
          → (m j).0 ≡ fail error)
      → to_long ri.epoch <ℤ to_long epoch
      → (on_journal ri.journal_id m n).0 ≡ fail error
  unfolding request_info
  refused jid epoch ri m n (j, there, l, above) same old lower = rw same (
      on_journal_refused jid m n j there
        (old (record j { disk = n.disk }) l (is_older_still epoch (request_info ri) j lower above)))

  same_stop : (x : Stop) → ◌≡◌ {A = Outcome (Unit {0})} (fail x) (fail error) → x ≡ error
  same_stop x h = cc h

  failed :
      {A : Type 0} (m : Call A) (j : Journal)
      → (m >>= λ _. pure tt) j ≡ (fail error, j)
      → (m j).0 ≡ fail error
  unfolding ◌>>=◌
  failed m j h = elim (Outcome-cases (m j).0) [
    | inl (a, e) ↦ absurd (cc (rw e at h))
    | inr (x, e) ↦ e ∙ ap fail (same_stop x (ap (λ r. r.0) (rw e at h)))
  ]

  answer :
      {A : Type 0} (jid : Bytes) (epoch : ℕ) (ri : RequestInfoProto) (m : Call A) (f : A → Response)
      (n : JournalNode)
      → HasPromised jid epoch n
      → ((j : Journal)
          → IsLoaded j
          → (request_info ri).epoch <ℤ promised_epoch j
          → (m j).0 ≡ fail error)
      → older_header jid epoch (some ri) ≡ true
      → (with_response (on_journal ri.journal_id m) f n).0 ≡ fail error
  unfolding with_response ◌>>=◌
  answer jid epoch ri m f n p old h =
      let (same, lower) = older_header_of jid epoch ri h in
      rw (refused jid epoch ri m n p same old lower) refl

  -- A message of an older writer gets an exception.
  pub handle_older :
      (jid : Bytes) (epoch : ℕ) (msg : Message) (n : JournalNode)
      → HasPromised jid epoch n
      → is_older jid epoch msg ≡ true
      → (handle msg n).0 ≡ fail error
  unfolding handle is_older request_info Rpc.journal Rpc.start_log_segment Rpc.finalize_log_segment
      Rpc.prepare_recovery Rpc.accept_recovery serve
  handle_older jid epoch (is_formatted k) n p h = absurd (cc h)
  handle_older jid epoch (get_journal_state k) n p h = absurd (cc h)
  handle_older jid epoch (new_epoch k ns e) n p h = absurd (cc h)
  handle_older jid epoch (format k ns) n p h = absurd (cc h)
  handle_older jid epoch (journal ri segment first num records) n p h =
      answer jid epoch ri _ _ n p
        (λ j l o. ap (λ x. x.0) (older_refusal (journals (request_info ri) _ _ _ _) _ j refl l o)) h
  handle_older jid epoch (start_log_segment ri txid version) n p h =
      answer jid epoch ri _ _ n p
        (λ j l o. ap (λ x. x.0) (older_refusal (starts (request_info ri) _ _) _ j refl l o)) h
  handle_older jid epoch (finalize_log_segment ri start end) n p h =
      answer jid epoch ri _ _ n p
        (λ j l o. ap (λ x. x.0) (older_refusal (finalizes (request_info ri) _ _) _ j refl l o)) h
  handle_older jid epoch (get_edit_log_manifest k since ok) n p h = absurd (cc h)
  handle_older jid epoch (prepare_recovery ri txid) n p h =
      answer jid epoch ri _ _ n p
        (λ j l o. failed _ j (older_refusal (prepares (request_info ri) _) _ j refl l o)) h
  handle_older jid epoch (accept_recovery ri seg url) n p h =
      answer jid epoch ri _ _ n p
        (λ j l o. ap (λ x. x.0) (older_refusal (accepts (request_info ri) _ _) _ j refl l o)) h
