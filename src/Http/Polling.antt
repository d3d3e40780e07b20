-- ===== src/Http/Polling.antt =====
-- src/JournalNodeHttpServer.cpp, the thread of the web server: it polls mongoose until a signal has
-- been received. What a poll brings is a parameter.
pub mod Signals
use jn_server_cc.Base.{
  ℕ, ◌==◌, List, [], ◌∷◌, ◌++◌, Option, none, some, Bytes, if◌then◌else◌, pure, ◌>>=◌, Outcome,
  done, fail, undefined,
}
use jn_server_cc.Host.{Host}
use jn_server_cc.Node.{NodeCall}
use jn_server_cc.Http.{Variables, Reply, ev_handler}

-- The static fields of the class.
pub record HttpServer : Type 0 where
  pub listening_port : Bytes
  pub signal_received : ℕ

abbrev pub idle_server : HttpServer
idle_server = record { listening_port = []; signal_received = 0 }

-- The part of `start_httpserver` in front of the thread.
unfoldable pub start_httpserver : Bytes → HttpServer → HttpServer
start_httpserver port s = record s { listening_port = port }

-- The signals that have the handler.
pub data Signal : Type 0 where
  sigterm sigint : Signal

abbrev pub sig_num : Signal → ℕ
sig_num sigterm = 15
sig_num sigint = 2

unfoldable pub signal_handler : Option Signal → HttpServer → HttpServer
signal_handler none s = s
signal_handler (some n) s = record s { signal_received = sig_num n }

-- What comes in during a call of `mg_poll_server`: requests, each with its path and its variables,
-- and perhaps a signal.
pub record Poll : Type 0 where
  pub requests : List (Bytes × Variables)
  pub signal : Option Signal

module _ ⦃host : Host⦄ where
  -- The requests that are handed to `ev_handler`, one after another.
  unfoldable pub handle_all : List (Bytes × Variables) → NodeCall (List (Option Reply))
  handle_all [] = pure []
  handle_all ((uri, var) ∷ rs) = do
    reply ← ev_handler uri var
    replies ← handle_all rs
    pure (reply ∷ replies)

  -- How the loop goes on: it waits for the next poll, or it has seen a signal. The function, which
  -- has a value to return, then ends without one, which is undefined behaviour.
  unfoldable pub after_poll : HttpServer → Outcome (Unit {0})
  after_poll s = if s.signal_received == 0 then done tt else fail undefined

  -- `run_httpserver`, over the polls to come: the replies that are given before it is over, and how
  -- it goes on behind the last poll. The port is set by a call of mongoose in front of the loop.
  unfoldable pub run_httpserver :
      HttpServer → List Poll → NodeCall (List (Option Reply) × Outcome (Unit {0}))
  unfolding handle_all
  run_httpserver s [] = pure ([], after_poll s)
  run_httpserver s (p ∷ ps) =
      let rest = run_httpserver (signal_handler p.signal s) ps in
      if s.signal_received == 0
      then (do replies ← handle_all p.requests; (later, end) ← rest; pure (replies ++ later, end))
      else pure ([], after_poll s)
