-- ===== src/Journal/Requests/Fencing.antt =====
-- No request takes a promise back, and a writer of an older epoch is refused from then on.
use jn_server_cc.Base.{refl, inr, Bool, List, [], ◌∷◌, Bytes, ℤ, arith, ◌>>=◌}
use jn_server_cc.Base.Moves.{Moves, Moves->>=, Moves-pure}
use jn_server_cc.Host.{Host}
use jn_server_cc.Messages.{SegmentState}
use jn_server_cc.LongFile.Persistent.{get, set}
use jn_server_cc.Storage.{StorageInfo}
use jn_server_cc.Journal.State.{Journal, RequestInfo, get_promised, set_promised}
use jn_server_cc.Journal.Epochs.{update_last_promised_epoch}
use jn_server_cc.Journal.Epochs.Promise.{
  Forward-of_still, IsLoaded, Later, Later-trans, Forward, Forward-preorder,
}
use jn_server_cc.Journal.Epochs.Order.{check_request-Forward}
use jn_server_cc.Journal.Scanning.{promise_epoch, new_epoch}
use jn_server_cc.Journal.Segments.{start_log_segment, journal, finalize_log_segment}
use jn_server_cc.Journal.Recovery.{prepare_recovery, accept_recovery}
use jn_server_cc.Journal.Manifest.{get_edit_log_manifest}
use jn_server_cc.Journal.Requests.Moving.{
  new_epoch-Moves, manifest-Moves, start-Moves, journal-Moves, finalize-Moves, prepare-Moves,
  accept-Moves,
}
use jn_server_cc.Journal.Requests.{
  Request, new_epochs, starts, journals, finalizes, prepares, accepts, lists, serve, run,
}

module _ ⦃host : Host⦄ where
  promise_epoch-IsLoaded :
      (epoch : ℤ) (j : Journal)
      → IsLoaded j
      → IsLoaded (promise_epoch epoch j).1 × Later j (promise_epoch epoch j).1
  unfolding promise_epoch update_last_promised_epoch get_promised set_promised get set ◌>>=◌
  promise_epoch-IsLoaded epoch j l = ground arith

  promise_epoch-Forward : (epoch : ℤ) → Moves Forward (promise_epoch epoch)
  promise_epoch-Forward epoch = record {
    at = λ j. record { from_loaded = promise_epoch-IsLoaded epoch j };
  }

  pub new_epoch-Forward : (ns : StorageInfo) (epoch : ℤ) → Moves Forward (new_epoch ns epoch)
  new_epoch-Forward ns epoch =
      new_epoch-Moves Forward Forward-preorder Forward-of_still ns epoch
        (promise_epoch-Forward epoch)

  pub start-Forward :
      (req : RequestInfo) (txid version : ℤ) → Moves Forward (start_log_segment req txid version)
  start-Forward req =
      start-Moves Forward Forward-preorder Forward-of_still req (check_request-Forward req)

  pub journal-Forward :
      (req : RequestInfo) (segment first num : ℤ) (records : Bytes)
      → Moves Forward (journal req segment first num records)
  journal-Forward req =
      journal-Moves Forward Forward-preorder Forward-of_still req (check_request-Forward req)

  pub finalize-Forward :
      (req : RequestInfo) (start end : ℤ) → Moves Forward (finalize_log_segment req start end)
  finalize-Forward req =
      finalize-Moves Forward Forward-preorder Forward-of_still req (check_request-Forward req)

  pub prepare-Forward : (req : RequestInfo) (txid : ℤ) → Moves Forward (prepare_recovery req txid)
  prepare-Forward req =
      prepare-Moves Forward Forward-preorder Forward-of_still req (check_request-Forward req)

  pub accept-Forward :
      (req : RequestInfo) (seg : SegmentState) (url : Bytes)
      → Moves Forward (accept_recovery req seg url)
  accept-Forward req =
      accept-Moves Forward Forward-preorder Forward-of_still req (check_request-Forward req)

  pub manifest-Forward : (since : ℤ) (ok : Bool) → Moves Forward (get_edit_log_manifest since ok)
  manifest-Forward = manifest-Moves Forward Forward-preorder Forward-of_still

  serve-Forward : (r : Request) → Moves Forward (serve r)
  unfolding serve
  serve-Forward (new_epochs ns epoch) =
      Moves->>= Forward-preorder _ _ (new_epoch-Forward ns epoch)
        (λ _. Moves-pure Forward-preorder tt)
  serve-Forward (starts req txid version) = start-Forward req txid version
  serve-Forward (journals req segment first num records) =
      journal-Forward req segment first num records
  serve-Forward (finalizes req start end) = finalize-Forward req start end
  serve-Forward (prepares req segment) =
      Moves->>= Forward-preorder _ _ (prepare-Forward req segment)
        (λ _. Moves-pure Forward-preorder tt)
  serve-Forward (accepts req segment url) = accept-Forward req segment url
  serve-Forward (lists since ok) =
      Moves->>= Forward-preorder _ _ (manifest-Forward since ok)
        (λ _. Moves-pure Forward-preorder tt)

  -- From a journal whose promised epoch has been loaded, serving any list of requests, however
  -- they end, leaves the promise loaded and never lowers it, and while the promise stays the same
  -- the serial number does not fall.
  pub run-Later :
      (rs : List Request) (j : Journal) → IsLoaded j → IsLoaded (run rs j) × Later j (run rs j)
  unfolding run
  run-Later [] j l = (l, inr (refl, omega arith))
  run-Later (r ∷ rs) j l =
      let (lk, jk) = ((serve-Forward r).at j).from_loaded l in
      let (lm, km) = run-Later rs (serve r j).1 lk in
      (lm, Later-trans j (serve r j).1 (run rs (serve r j).1) jk km)

pub ruleset requests_forward = (
  new_epoch-Forward, start-Forward, journal-Forward, finalize-Forward, prepare-Forward,
  accept-Forward, manifest-Forward,
)
