-- ===== src/Journal/Requests/Asked.antt =====
-- Where the epoch that a journal promises comes from.
use jn_server_cc.Base.{
  ◌≡◌, refl, ◌∙◌, ◌⊎◌, inl, inr, List, [], ◌∷◌, Option, none, some, ℤ, arith, ◌>>=◌,
}
use jn_server_cc.Base.Moves.{Moves, IsPreorder, Moves->>=, Moves-pure}
use jn_server_cc.Host.{Host}
use jn_server_cc.LongFile.Persistent.{get, set}
use jn_server_cc.Journal.State.{Journal, RequestInfo, get_promised, set_promised}
use jn_server_cc.Journal.Epochs.{
  check_epoch, check_serial, check_request, update_last_promised_epoch,
}
use jn_server_cc.Journal.Epochs.Promise.{promised_epoch, IsLoaded, SameEpoch}
use jn_server_cc.Journal.Epochs.Order.{check_committed-SameEpoch}
use jn_server_cc.Journal.Scanning.{promise_epoch}
use jn_server_cc.Journal.Requests.Moving.{
  new_epoch-Moves, manifest-Moves, start-Moves, journal-Moves, finalize-Moves, prepare-Moves,
  accept-Moves,
}
use jn_server_cc.Journal.Requests.{
  Request, new_epochs, starts, journals, finalizes, prepares, accepts, lists, serve, run,
}

-- The epoch that a request names.
abbrev pub epoch_of : Request → Option ℤ
epoch_of (new_epochs ns epoch) = some epoch
epoch_of (starts req txid version) = some req.epoch
epoch_of (journals req segment first num records) = some req.epoch
epoch_of (finalizes req start end) = some req.epoch
epoch_of (prepares req segment) = some req.epoch
epoch_of (accepts req segment url) = some req.epoch
epoch_of (lists since ok) = none

-- One of the requests names the epoch.
abbrev pub Asked : ℤ → List Request → Type 0
Asked e [] = ⊥
Asked e (r ∷ rs) = (epoch_of r ≡ some e) ⊎ Asked e rs

module _ ⦃host : Host⦄ where
  -- From a loaded promise on, the promise stays or becomes the given epoch.
  record FromEpoch (given : Option ℤ) (j k : Journal) : Type 0 where
    from_loaded :
        IsLoaded j
        → IsLoaded k × ((promised_epoch k ≡ promised_epoch j) ⊎ (given ≡ some (promised_epoch k)))

  from_trans :
      (given : Option ℤ) (a b c : ℤ)
      → (b ≡ a) ⊎ (given ≡ some b)
      → (c ≡ b) ⊎ (given ≡ some c)
      → (c ≡ a) ⊎ (given ≡ some c)
  from_trans given a b c (inl e) (inl f) = inl (f ∙ e)
  from_trans given a b c (inr e) (inl f) = inr (rw f e)
  from_trans given a b c p (inr f) = inr f

  FromEpoch-preorder : (given : Option ℤ) → IsPreorder (FromEpoch given)
  FromEpoch-preorder given = record {
    same = λ s. record { from_loaded = λ l. (l, inl refl) };
    chain = λ s t u a b. record {
      from_loaded = λ l.
          let (lt, st) = a.from_loaded l in
          let (lu, tu) = b.from_loaded lt in
          (lu, from_trans given (promised_epoch s) (promised_epoch t) (promised_epoch u) st tu);
    };
  }

  FromEpoch-of_still : (given : Option ℤ) (j k : Journal) → SameEpoch j k → FromEpoch given j k
  FromEpoch-of_still given j k h = record { from_loaded = λ l. rw (h.promise) (l, inl refl) }

  promised_given :
      (epoch : ℤ) (j : Journal)
      → IsLoaded j
      → IsLoaded (promise_epoch epoch j).1
        × ((promised_epoch (promise_epoch epoch j).1 ≡ promised_epoch j)
            ⊎ (some epoch ≡ some (promised_epoch (promise_epoch epoch j).1)))
  unfolding promise_epoch update_last_promised_epoch get_promised set_promised get set ◌>>=◌
  promised_given epoch j l = ground arith

  checked_given :
      (req : RequestInfo) (j : Journal)
      → IsLoaded j
      → IsLoaded (check_epoch req j).1
        × ((promised_epoch (check_epoch req j).1 ≡ promised_epoch j)
            ⊎ (some req.epoch ≡ some (promised_epoch (check_epoch req j).1)))
  unfolding check_epoch get_promised set_promised get set ◌>>=◌
  checked_given req j l = ground arith

  counted_given :
      (req : RequestInfo) (given : Option ℤ) (j : Journal)
      → IsLoaded j
      → IsLoaded (check_serial req j).1
        × ((promised_epoch (check_serial req j).1 ≡ promised_epoch j)
            ⊎ (given ≡ some (promised_epoch (check_serial req j).1)))
  unfolding check_serial ◌>>=◌
  counted_given req given j l = ground arith

  check_request-FromEpoch :
      (req : RequestInfo) → Moves (FromEpoch (some req.epoch)) (check_request req)
  unfolding check_request
  check_request-FromEpoch req =
      let pre = FromEpoch-preorder (some req.epoch) in
      Moves->>= pre _ _ (record { at = λ j. record { from_loaded = checked_given req j } })
        (λ _.
          Moves->>= pre _ _
            (record { at = λ j. record { from_loaded = counted_given req (some req.epoch) j } })
            (λ _. record {
              at = λ j.
                  FromEpoch-of_still (some req.epoch) j _ ((check_committed-SameEpoch req).at j);
            }))

  serve-FromEpoch : (r : Request) → Moves (FromEpoch (epoch_of r)) (serve r)
  unfolding serve
  serve-FromEpoch (new_epochs ns epoch) =
      let pre = FromEpoch-preorder (some epoch) in
      let promise : Moves (FromEpoch (some epoch)) (promise_epoch epoch) = record {
        at = λ j. record { from_loaded = promised_given epoch j };
      } in
      Moves->>= pre _ _
        (new_epoch-Moves (FromEpoch (some epoch)) pre (FromEpoch-of_still (some epoch)) ns epoch
          promise)
        (λ _. Moves-pure pre tt)
  serve-FromEpoch (starts req txid version) =
      start-Moves (FromEpoch (some req.epoch)) (FromEpoch-preorder (some req.epoch))
        (FromEpoch-of_still (some req.epoch)) req (check_request-FromEpoch req) txid version
  serve-FromEpoch (journals req segment first num records) =
      journal-Moves (FromEpoch (some req.epoch)) (FromEpoch-preorder (some req.epoch))
        (FromEpoch-of_still (some req.epoch)) req (check_request-FromEpoch req) segment first num
        records
  serve-FromEpoch (finalizes req start end) =
      finalize-Moves (FromEpoch (some req.epoch)) (FromEpoch-preorder (some req.epoch))
        (FromEpoch-of_still (some req.epoch)) req (check_request-FromEpoch req) start end
  serve-FromEpoch (prepares req segment) =
      let pre = FromEpoch-preorder (some req.epoch) in
      Moves->>= pre _ _
        (prepare-Moves (FromEpoch (some req.epoch)) pre (FromEpoch-of_still (some req.epoch)) req
          (check_request-FromEpoch req) segment)
        (λ _. Moves-pure pre tt)
  serve-FromEpoch (accepts req segment url) =
      accept-Moves (FromEpoch (some req.epoch)) (FromEpoch-preorder (some req.epoch))
        (FromEpoch-of_still (some req.epoch)) req (check_request-FromEpoch req) segment url
  serve-FromEpoch (lists since ok) =
      let pre = FromEpoch-preorder none in
      Moves->>= pre _ _ (manifest-Moves (FromEpoch none) pre (FromEpoch-of_still none) since ok)
        (λ _. Moves-pure pre tt)

  after_first :
      (r : Request) (rs : List Request) (a b c : ℤ)
      → (b ≡ a) ⊎ (epoch_of r ≡ some b)
      → (c ≡ b) ⊎ Asked c rs
      → (c ≡ a) ⊎ Asked c (r ∷ rs)
  after_first r rs a b c (inl e) (inl f) = inl (f ∙ e)
  after_first r rs a b c (inr e) (inl f) = inr (inl (rw f e))
  after_first r rs a b c p (inr f) = inr (inr f)

  -- From a journal whose promised epoch has been loaded, the promise after any list of requests
  -- is the one before or the epoch that one of the requests names.
  pub run-Asked :
      (rs : List Request) (j : Journal)
      → IsLoaded j
      → (promised_epoch (run rs j) ≡ promised_epoch j) ⊎ Asked (promised_epoch (run rs j)) rs
  unfolding run
  run-Asked [] j l = inl refl
  run-Asked (r ∷ rs) j l =
      let (lk, jk) = ((serve-FromEpoch r).at j).from_loaded l in
      after_first r rs (promised_epoch j) (promised_epoch (serve r j).1)
        (promised_epoch (run rs (serve r j).1)) jk (run-Asked rs (serve r j).1 lk)
