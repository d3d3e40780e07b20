-- ===== src/Client/Report.antt =====
-- The client of a node: what it prints of the journal `abc`.
use jn_server_cc.Base.{
  ◌≡◌, refl, ap, ◌∙◌, [], ◌∷◌, ◌++◌, none, some, Bytes, codes, true, inl, inr, ◌⊎◌, Outcome, Stop,
  done, fail, arith, pure, ◌>>=◌, ◌>>◌, >>=-of_done,
}
use jn_server_cc.Dict.{find}
use jn_server_cc.Host.{Host}
use jn_server_cc.Messages.{to_u64}
use jn_server_cc.Journal.State.{Journal}
use jn_server_cc.Journal.Epochs.Promise.{promised_epoch, IsLoaded}
use jn_server_cc.Node.{JournalNode}
use jn_server_cc.Rpc.{JournalState}
use jn_server_cc.Rpc.Translator.{
  Response, formatted, state, last_segment, manifest, recovery, empty, get_journal_state, handle,
}
use jn_server_cc.Server.Once.{state_reported}
use jn_server_cc.Client.{
  Session, Ice, usage, report, print, menu, prompt, print_answer, ask, perform, loop, talk, run,
}
use jn_server_cc.Client.Commands.{typed, perform_all, loop-perform_all}

-- What comes back of a call over Ice: the response, or the text of an exception.
abbrev answer : (Stop → Bytes) → Outcome Response → Bytes ⊎ JournalState
answer text (done (state st)) = inr st
answer text (done (formatted b)) = inl []
answer text (done (last_segment s)) = inl []
answer text (done (manifest m)) = inl []
answer text (done (recovery r)) = inl []
answer text (done empty) = inl []
answer text (fail e) = inl (text e)

module _ ⦃host : Host⦄ where
  -- A proxy of the node, where the calls reach it.
  abbrev pub proxy : Bytes → (Stop → Bytes) → Ice JournalNode
  proxy name text = record {
    app_name = name;
    checked_cast = some true;
    call_state = λ jid n. let (r, n') = handle (get_journal_state jid) n in (answer text r, n');
  }

  -- The state of a journal as a node reports it.
  abbrev pub reported : Journal → JournalNode → JournalState
  reported j n = record {
    last_promised_epoch = to_u64 (promised_epoch j);
    http_port = n.http_port;
    from_url = n.http_server_uri;
  }

  asked :
      (name : Bytes) (text : Stop → Bytes) (n : JournalNode) (out err : Bytes) (j : Journal)
      → find (codes "abc") n.journals_by_id ≡ some j
      → IsLoaded j
      → perform (proxy name text) b's' (record { server = n; out = out; err = err }) ≡ (
        done tt,
        record {
          server = (handle (get_journal_state (codes "abc")) n).1;
          out = out ++ report (reported j n);
          err = err;
        },
      )
  unfolding perform ask print_answer print ◌>>=◌
  asked name text n out err j there l = rw (state_reported (codes "abc") n j there l) refl

  abbrev console : JournalNode → Bytes → Session JournalNode
  console n out = record { server = n; out = out; err = [] }

  -- The commands `s` and `x`, from the prompt on.
  performed :
      (name : Bytes) (text : Stop → Bytes) (out : Bytes) (n : JournalNode) (j : Journal)
      → find (codes "abc") n.journals_by_id ≡ some j
      → IsLoaded j
      → perform_all (proxy name text) (b's' ∷ b'x' ∷ []) (console n out) ≡ (
        done tt,
        console (handle (get_journal_state (codes "abc")) n).1 (
            out ++ report (reported j n) ++ codes "==> " ++ codes "unknown command `x'\n" ++ usage),
      )
  unfolding print prompt menu perform ◌>>=◌
  performed name text out n j there l =
      >>=-of_done (perform (proxy name text) b's') (λ _. prompt >> perform (proxy name text) b'x')
        (console n out) _ tt (asked name text n out [] j there l)

  -- A client with a proxy through which its calls reach a node, and with nothing on its command
  -- line, at whose console s and then x is typed, with any white space between them and anything
  -- behind, ends with code 0, having printed the usage, the promised epoch, the URL and the port
  -- of the node, and the usage again for x: where the node has the journal abc with its promise
  -- loaded.
  pub run-reported :
      (name : Bytes) (text : Stop → Bytes) (input rest : Bytes) (n : JournalNode) (j : Journal)
      → find (codes "abc") n.journals_by_id ≡ some j
      → IsLoaded j
      → typed input ≡ b's' ∷ b'x' ∷ rest
      → run (proxy name text) name [] input (record { server = n; out = []; err = [] }) ≡ (
        done 0,
        record {
          server = (handle (get_journal_state (codes "abc")) n).1;
          out =
              usage
              ++ codes "==> "
              ++ report (reported j n)
              ++ codes "==> "
              ++ codes "unknown command `x'\n"
              ++ usage;
          err = [];
        },
      )
  unfolding run talk menu print prompt ◌>>=◌
  run-reported name text input rest n j there l e =
      let looped =
        loop-perform_all (proxy name text) input (b's' ∷ []) b'x' rest (omega arith, tt) e
          (inl refl) in
      let out = usage ++ codes "==> " in
      >>=-of_done (loop (proxy name text) input none) (λ _. pure 0) (console n out) _ tt
        (ap (λ m. m (console n out)) looped ∙ performed name text out n j there l)
