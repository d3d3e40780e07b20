-- ===== src/Http/Polling/Signals.antt =====
-- When the thread of the web server ends.
use mathlib.Core.List.{append_assoc, append-nil}
use jn_server_cc.Base.{
  Outcome-cases, inl, inr, arith, ◌≡◌, refl, List, [], ◌∷◌, ◌++◌, none, some, Bytes, pure, ◌>>=◌,
  done, fail, undefined,
}
use jn_server_cc.Host.{Host}
use jn_server_cc.Node.{JournalNode}
use jn_server_cc.Http.{Variables, ev_handler}
use jn_server_cc.Http.Polling.{
  HttpServer, Signal, sigterm, sigint, signal_handler, Poll, handle_all, after_poll, run_httpserver,
}

-- No poll brings a signal.
abbrev pub IsQuiet : List Poll → Type 0
IsQuiet [] = Unit {0}
IsQuiet (p ∷ ps) = (p.signal ≡ none) × IsQuiet ps

abbrev pub all_requests : List Poll → List (Bytes × Variables)
all_requests [] = []
all_requests (p ∷ ps) = p.requests ++ all_requests ps

module _ ⦃host : Host⦄ where
  handle_all-append :
      (rs qs : List (Bytes × Variables)) (n : JournalNode)
      → handle_all (rs ++ qs) n ≡ (do a ← handle_all rs; b ← handle_all qs; pure (a ++ b)) n
  unfolding handle_all ◌>>=◌
  handle_all-append [] qs n = ground arith
  handle_all-append ((uri, var) ∷ rs) qs n =
      ground (arith, handle_all-append rs qs (ev_handler uri var n).1)

  -- The end of the loop: nothing is handled once a signal has been received.
  run_stopped :
      (s : HttpServer) (qs : List Poll) (g : Signal) (n : JournalNode)
      → run_httpserver (signal_handler (some g) s) qs n ≡ (done ([], fail undefined), n)
  unfolding run_httpserver after_poll signal_handler ◌>>=◌
  run_stopped s [] sigterm n = refl
  run_stopped s [] sigint n = refl
  run_stopped s (q ∷ qs) sigterm n = refl
  run_stopped s (q ∷ qs) sigint n = refl

  -- The thread of the web server that has received no signal handles all requests of the polls up
  -- to and including the first that brings a signal, in their order, with the replies of each,
  -- and no request that would come in later: it then ends in undefined behaviour, without the
  -- value it has to return, unless one of those requests has stopped it before.
  pub run_httpserver-handle_all :
      (s : HttpServer) (ps : List Poll) (p : Poll) (qs : List Poll) (g : Signal) (n : JournalNode)
      → s.signal_received ≡ 0
      → IsQuiet ps
      → p.signal ≡ some g
      → run_httpserver s (ps ++ p ∷ qs) n
        ≡ (do replies ← handle_all (all_requests ps ++ p.requests); pure (replies, fail undefined))
            n
  unfolding run_httpserver signal_handler ◌>>=◌
  run_httpserver-handle_all s [] p qs g n e q h =
      let n1 = (handle_all p.requests n).1 in
      let stopped : run_httpserver (signal_handler p.signal s) qs n1
          ≡ (done ([], fail undefined), n1) =
        rw h (run_stopped s qs g n1) in
      elim (Outcome-cases (handle_all p.requests n).0) [
        | inl (a, ea) ↦ ground (arith, stopped, append-nil a)
        | inr (x, ex) ↦ ground (arith, stopped)
      ]
  run_httpserver-handle_all s (p0 ∷ ps) p qs g n e (q0, q) h =
      let ih = run_httpserver-handle_all s ps p qs g (handle_all p0.requests n).1 e q h in
      rw (append_assoc p0.requests (all_requests ps) p.requests, q0)
        (ground (arith, ih, handle_all-append p0.requests (all_requests ps ++ p.requests) n))
