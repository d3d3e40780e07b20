-- ===== src/Journal/Requests/Replay.antt =====
-- What a served request excludes: requests of older epochs, and of the same epoch with a serial
-- number that is not higher.
use jn_server_cc.Base.{
  ℕ, ◌≡◌, sym, ◌⊎◌, inl, inr, List, some, ℤ, ◌≤ℤ◌, ◌<ℤ◌, arith, done, fail, error, undefined, Stop,
  if◌then◌else◌, ltb_ℤ, pure, ◌>>=◌, Outcome, Outcome-cases, >>=-eq-done,
}
use mathlib.Core.Option.{some-injective}
use mathlib.Core.Path.{subst}
use jn_server_cc.Base.Moves.{Moves}
use jn_server_cc.Host.{Host}
use jn_server_cc.Storage.{is_formatted}
use jn_server_cc.Journal.State.{Journal, Call, RequestInfo}
use jn_server_cc.Journal.Epochs.{check_formatted, check_request, check_write_request}
use jn_server_cc.Journal.Epochs.Promise.{promised_epoch, IsLoaded, Later, SameEpoch}
use jn_server_cc.Journal.Epochs.Order.{
  Accepted, check_request-Accepted, check_write_request-Accepted, check_request_stale,
  check_request_out_of_order,
}
use jn_server_cc.Journal.Segments.{start_log_segment, journal, finalize_log_segment}
use jn_server_cc.Journal.Recovery.{prepare_recovery, accept_recovery}
use jn_server_cc.Journal.Requests.Steady.{steady_rules, write_batch-SameEpoch}
use jn_server_cc.Journal.Requests.Fencing.{run-Later}
use jn_server_cc.Journal.Requests.Moving.{guarded}
use jn_server_cc.Journal.Requests.{
  Request, new_epochs, starts, journals, finalizes, prepares, accepts, lists, header, serve, run,
}

module _ ⦃host : Host⦄ where
  guarded-Accepted :
      {A : Type 0} (req : RequestInfo) (body : Call A) (j : Journal) (a : A)
      → Moves SameEpoch body
      → (guarded req body j).0 ≡ done a
      → Accepted req (guarded req body j).1
  guarded-Accepted req body j a same h =
      let (u, e1, h1, q1) = >>=-eq-done check_formatted _ j a h in
      let j1 = (check_formatted j).1 in
      let (v, e2, h2, q2) = >>=-eq-done (check_request req) _ j1 a h1 in
      let s = same.at (check_request req j1).1 in
      rw (q1, q2, s.promise, s.serial) (check_request-Accepted req j1 v e2)

  journal-Accepted :
      (req : RequestInfo) (segment first num : ℤ) (records : List ℕ) (j : Journal) (a : Unit {0})
      → (journal req segment first num records j).0 ≡ done a
      → Accepted req (journal req segment first num records j).1
  unfolding journal
  journal-Accepted req segment first num records j a h =
      let (u, e1, h1, q1) = >>=-eq-done check_formatted _ j a h in
      let j1 = (check_formatted j).1 in
      let (v, e2, h2, q2) = >>=-eq-done (check_write_request req) _ j1 a h1 in
      let s = (write_batch-SameEpoch segment first num records).at (check_write_request req j1).1 in
      rw (q1, q2, s.promise, s.serial) ((check_write_request-Accepted req j1 v e2).0)

  -- With the answer left out.
  answered :
      {A : Type 0} (m : Call A) (req : RequestInfo) (j : Journal)
      → ((a : A) → (m j).0 ≡ done a → Accepted req (m j).1)
      → ((m >>= λ _. pure tt) j).0 ≡ done tt
      → Accepted req ((m >>= λ _. pure tt) j).1
  unfolding ◌>>=◌
  answered m req j h e = elim (Outcome-cases (m j).0) [
    | inl (a, q) ↦ rw q (h a q)
    | inr (x, q) ↦ absurd (cc (rw q at e))
  ]

  of_header :
      (rq req : RequestInfo) (k : Journal) → some rq ≡ some req → Accepted rq k → Accepted req k
  of_header rq req k e = subst (λ q. Accepted q k) (some-injective rq req e)

  -- When a request of a writer succeeds, the journal has its promised epoch loaded, and the
  -- promise is the epoch and the last serial number is the serial number of the request.
  serve-Accepted :
      (r : Request) (req : RequestInfo) (j : Journal)
      → header r ≡ some req
      → (serve r j).0 ≡ done tt
      → Accepted req (serve r j).1
  unfolding serve start_log_segment finalize_log_segment prepare_recovery accept_recovery
  serve-Accepted (new_epochs ns epoch) req j e h = absurd (cc e)
  serve-Accepted (starts rq txid version) req j e h =
      of_header rq req ((start_log_segment rq txid version j).1) e
        (guarded-Accepted rq _ j tt (search steady_rules depth 12) h)
  serve-Accepted (journals rq segment first num records) req j e h =
      of_header rq req ((journal rq segment first num records j).1) e
        (journal-Accepted rq segment first num records j tt h)
  serve-Accepted (finalizes rq start end) req j e h =
      of_header rq req ((finalize_log_segment rq start end j).1) e
        (guarded-Accepted rq _ j tt (search steady_rules depth 12) h)
  serve-Accepted (prepares rq segment) req j e h =
      of_header rq req ((serve (prepares rq segment) j).1) e (
        answered (prepare_recovery rq segment) rq j
          (λ a q. guarded-Accepted rq _ j a (search steady_rules depth 14) q) h)
  serve-Accepted (accepts rq segment url) req j e h =
      of_header rq req ((accept_recovery rq segment url j).1) e
        (guarded-Accepted rq _ j tt (search steady_rules depth 16) h)
  serve-Accepted (lists since ok) req j e h = absurd (cc e)

  -- The header of a request that is refused: an older epoch, or an old serial number.
  abbrev pub IsOld : RequestInfo → Journal → Type 0
  IsOld req j =
      (req.epoch <ℤ promised_epoch j)
      ⊎ ((req.epoch ≡ promised_epoch j) × (req.ipc_serial_number ≤ℤ j.current_epoch_ipc_serial))

  IsOld-header :
      (rq req : RequestInfo) (j : Journal) → some rq ≡ some req → IsOld req j → IsOld rq j
  IsOld-header rq req j e = subst (λ q. IsOld q j) (sym (some-injective rq req e))

  -- How it is refused: an older epoch with an error, an old serial number with the undefined
  -- behaviour of its message, and anything with an error where the journal is not formatted.
  abbrev pub refusal : RequestInfo → Journal → Stop
  refusal req j =
      if is_formatted j.storage
      then if ltb_ℤ req.epoch (promised_epoch j) then error else undefined
      else error

  check_request_old :
      (req : RequestInfo) (j : Journal)
      → IsLoaded j
      → IsOld req j
      → check_request req j
        ≡ (fail (if ltb_ℤ req.epoch (promised_epoch j) then error else undefined), j)
  check_request_old req j l (inl h) = ground (arith, check_request_stale req j l h)
  check_request_old req j l (inr (e, h)) = ground (arith, check_request_out_of_order req j l e h)

  guarded_old :
      {A : Type 0} (req : RequestInfo) (body : Call A) (j : Journal)
      → IsLoaded j
      → IsOld req j
      → guarded req body j ≡ (fail (refusal req j), j)
  unfolding check_formatted ◌>>=◌
  guarded_old req body j l h = ground (arith, check_request_old req j l h)

  journal_old :
      (req : RequestInfo) (segment first num : ℤ) (records : List ℕ) (j : Journal)
      → IsLoaded j
      → IsOld req j
      → journal req segment first num records j ≡ (fail (refusal req j), j)
  unfolding journal check_write_request check_formatted ◌>>=◌
  journal_old req segment first num records j l h = ground (arith, check_request_old req j l h)

  unanswered :
      {A : Type 0} (m : Call A) (x : Stop) (j : Journal)
      → m j ≡ (fail x, j)
      → (m >>= λ _. pure tt) j ≡ (fail x, j)
  unfolding ◌>>=◌
  unanswered m x j h = rw h

  own_refusal :
      {r : Outcome (Unit {0}) × Journal} (req rq : RequestInfo) (j : Journal)
      → some rq ≡ some req
      → r ≡ (fail (refusal rq j), j)
      → r ≡ (fail (refusal req j), j)
  own_refusal {r} req rq j e = subst (λ q. r ≡ (fail (refusal q j), j)) (some-injective rq req e)

  -- In a journal whose promised epoch has been loaded, a request whose header has an epoch below
  -- the promise, or the promised epoch and a serial number that is not above the last one, does
  -- not get through, and the journal and its files stay as they are: an older epoch ends in an
  -- error, an old serial number in the undefined behaviour of its message, and both in an error
  -- where the journal is not formatted.
  pub serve_old :
      (r : Request) (req : RequestInfo) (j : Journal)
      → header r ≡ some req
      → IsLoaded j
      → IsOld req j
      → serve r j ≡ (fail (refusal req j), j)
  unfolding serve start_log_segment finalize_log_segment prepare_recovery accept_recovery
  serve_old (new_epochs ns epoch) req j e l h = absurd (cc e)
  serve_old (starts rq txid version) req j e l h =
      own_refusal req rq j e (guarded_old rq _ j l (IsOld-header rq req j e h))
  serve_old (journals rq segment first num records) req j e l h =
      own_refusal req rq j e
        (journal_old rq segment first num records j l (IsOld-header rq req j e h))
  serve_old (finalizes rq start end) req j e l h =
      own_refusal req rq j e (guarded_old rq _ j l (IsOld-header rq req j e h))
  serve_old (prepares rq segment) req j e l h = own_refusal req rq j e (
      unanswered (prepare_recovery rq segment) _ j
        (guarded_old rq _ j l (IsOld-header rq req j e h)))
  serve_old (accepts rq segment url) req j e l h =
      own_refusal req rq j e (guarded_old rq _ j l (IsOld-header rq req j e h))
  serve_old (lists since ok) req j e l h = absurd (cc e)

  -- The new request does not come after the old one.
  abbrev pub NotAfter : RequestInfo → RequestInfo → Type 0
  NotAfter new old =
      (new.epoch <ℤ old.epoch)
      ⊎ ((new.epoch ≡ old.epoch) × (new.ipc_serial_number ≤ℤ old.ipc_serial_number))

  IsOld-after :
      (new old : RequestInfo) (j k : Journal)
      → NotAfter new old
      → Accepted old j
      → Later j k
      → IsOld new k
  IsOld-after new old j k n a l = ground arith

  -- Once a request of a writer has succeeded, any request whose header has an older epoch, or the
  -- same epoch and a serial number that is not higher, does not get through, whatever requests
  -- are served in between and however they end: it leaves the journal and its files as they are,
  -- with an error where its epoch is below the promise of then or the journal is not formatted,
  -- and otherwise in the undefined behaviour of the message on its serial number.
  pub serve_replayed :
      (r r' : Request) (old new : RequestInfo) (rs : List Request) (j : Journal)
      → header r ≡ some old
      → (serve r j).0 ≡ done tt
      → header r' ≡ some new
      → NotAfter new old
      → serve r' (run rs (serve r j).1)
        ≡ (fail (refusal new (run rs (serve r j).1)), run rs (serve r j).1)
  serve_replayed r r' old new rs j e h e' n =
      let acc = serve-Accepted r old j e h in
      let (l, later) = run-Later rs (serve r j).1 acc.0 in
      serve_old r' new _ e' l (IsOld-after new old (serve r j).1 (run rs (serve r j).1) n acc later)
