-- ===== src/Rpc/Translator/Fencing.antt =====
-- A request of the wire moves only the journal that it names, and that one only forward unless it
-- is formatted.
use jn_server_cc.Base.{true, false, ◌⊎◌, inl, inr, ◌≡◌, ◌≢◌, refl, Bool, Bytes, arith}
use jn_server_cc.Base.Moves.{Moves}
use jn_server_cc.Host.{Host}
use jn_server_cc.LongFile.Persistent.{get}
use jn_server_cc.Journal.State.{get_promised}
use jn_server_cc.Journal.Epochs.Promise.{Forward}
use jn_server_cc.Journal.Opening.{get_last_promised_epoch, is_formatted_call}
use jn_server_cc.Journal.Requests.Fencing.{requests_forward}
use jn_server_cc.Node.Others.{
  OthersSame, StaysSorted, MovesForward, MovesForward-others, MovesForward-any, others_rules,
  sorted_rules, forward_rules,
}
use jn_server_cc.Rpc
use jn_server_cc.Rpc.Translator.{
  Message, is_formatted, get_journal_state, new_epoch, format, journal, start_log_segment,
  finalize_log_segment, get_edit_log_manifest, prepare_recovery, accept_recovery, target,
  with_response, handle,
}

abbrev pub is_format : Message → Bool
is_format (format jid ns) = true
is_format _ = false

-- The request is not one to format the journal.
abbrev pub Spares : Bytes → Message → Type 0
Spares k msg = (is_format msg ≡ false) ⊎ (k ≢ target msg)

module _ ⦃host : Host⦄ where
  pub handle-OthersSame : (msg : Message) → Moves (OthersSame (target msg)) (handle msg)
  unfolding handle target with_response Rpc.is_formatted Rpc.get_journal_state Rpc.new_epoch
      Rpc.format Rpc.journal Rpc.start_log_segment Rpc.finalize_log_segment
      Rpc.get_edit_log_manifest Rpc.prepare_recovery Rpc.accept_recovery
  handle-OthersSame (is_formatted jid) = search others_rules
  handle-OthersSame (get_journal_state jid) = search others_rules
  handle-OthersSame (new_epoch jid ns epoch) = search others_rules
  handle-OthersSame (format jid ns) = search others_rules
  handle-OthersSame (journal ri segment first num records) = search others_rules
  handle-OthersSame (start_log_segment ri txid version) = search others_rules
  handle-OthersSame (finalize_log_segment ri start end) = search others_rules
  handle-OthersSame (get_edit_log_manifest jid since ok) = search others_rules
  handle-OthersSame (prepare_recovery ri txid) = search others_rules
  handle-OthersSame (accept_recovery ri seg url) = search others_rules

  pub handle-StaysSorted : (msg : Message) → Moves StaysSorted (handle msg)
  unfolding handle with_response Rpc.is_formatted Rpc.get_journal_state Rpc.new_epoch Rpc.format
      Rpc.journal Rpc.start_log_segment Rpc.finalize_log_segment Rpc.get_edit_log_manifest
      Rpc.prepare_recovery Rpc.accept_recovery
  handle-StaysSorted (is_formatted jid) = search sorted_rules
  handle-StaysSorted (get_journal_state jid) = search sorted_rules
  handle-StaysSorted (new_epoch jid ns epoch) = search sorted_rules
  handle-StaysSorted (format jid ns) = search sorted_rules
  handle-StaysSorted (journal ri segment first num records) = search sorted_rules
  handle-StaysSorted (start_log_segment ri txid version) = search sorted_rules
  handle-StaysSorted (finalize_log_segment ri start end) = search sorted_rules
  handle-StaysSorted (get_edit_log_manifest jid since ok) = search sorted_rules
  handle-StaysSorted (prepare_recovery ri txid) = search sorted_rules
  handle-StaysSorted (accept_recovery ri seg url) = search sorted_rules

  get_last_promised_epoch-Forward : Moves Forward get_last_promised_epoch
  unfolding get_last_promised_epoch get_promised get
  get_last_promised_epoch-Forward = record { at = λ j. record { from_loaded = λ l. ground arith } }

  is_formatted-Forward : Moves Forward is_formatted_call
  unfolding is_formatted_call
  is_formatted-Forward = record {
    at = λ j. record { from_loaded = λ l. (l, inr (refl, omega arith)) };
  }

  named-MovesForward :
      (msg : Message) → is_format msg ≡ false → Moves (MovesForward (target msg)) (handle msg)
  unfolding handle target with_response Rpc.is_formatted Rpc.get_journal_state Rpc.new_epoch
      Rpc.journal Rpc.start_log_segment Rpc.finalize_log_segment Rpc.get_edit_log_manifest
      Rpc.prepare_recovery Rpc.accept_recovery
  named-MovesForward (is_formatted jid) h = search (forward_rules, is_formatted-Forward)
  named-MovesForward (get_journal_state jid) h =
      search (forward_rules, get_last_promised_epoch-Forward)
  named-MovesForward (new_epoch jid ns epoch) h = search (forward_rules, requests_forward)
  named-MovesForward (format jid ns) h = absurd (cc h)
  named-MovesForward (journal ri segment first num records) h =
      search (forward_rules, requests_forward)
  named-MovesForward (start_log_segment ri txid version) h =
      search (forward_rules, requests_forward)
  named-MovesForward (finalize_log_segment ri start end) h =
      search (forward_rules, requests_forward)
  named-MovesForward (get_edit_log_manifest jid since ok) h =
      search (forward_rules, requests_forward)
  named-MovesForward (prepare_recovery ri txid) h = search (forward_rules, requests_forward)
  named-MovesForward (accept_recovery ri seg url) h = search (forward_rules, requests_forward)

  pub handle-MovesForward :
      (k : Bytes) (msg : Message) → Spares k msg → Moves (MovesForward k) (handle msg)
  handle-MovesForward k msg (inl h) =
      MovesForward-any k (target msg) (handle msg) (handle-OthersSame msg)
        (named-MovesForward msg h)
  handle-MovesForward k msg (inr h) = record {
    at =
        λ n. MovesForward-others k (target msg) n (handle msg n).1 h ((handle-OthersSame msg).at n);
  }
