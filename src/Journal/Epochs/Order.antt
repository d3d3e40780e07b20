-- ===== src/Journal/Epochs/Order.antt =====
-- What an accepted request says about the promise and the serial number, and what is refused.
use jn_server_cc.Base.{
  ◌≡◌, refl, ◌≤ℤ◌, ◌<ℤ◌, arith, done, fail, error, undefined, stop_if, ◌>>=◌, not, eqb_ℤ,
  eq_of_parts, >>=-eq-done,
}
use jn_server_cc.Base.Moves.{Moves, Moves->>=}
use jn_server_cc.Host.{Host}
use jn_server_cc.LongFile.Persistent.{get, set}
use jn_server_cc.Journal.State.{Journal, RequestInfo, get_promised, set_promised, get_writer}
use jn_server_cc.Journal.Epochs.{
  check_formatted, check_epoch, check_serial, check_committed, check_request, check_write_request,
  abort_cur_segment,
}
use jn_server_cc.Journal.Epochs.Promise.{
  promised_epoch, IsLoaded, Later, Forward, Forward-preorder, Forward-of_same, SameEpoch,
  same_epoch_rules,
}

module _ ⦃host : Host⦄ where
  pub check_formatted-SameEpoch : Moves SameEpoch check_formatted
  unfolding check_formatted
  check_formatted-SameEpoch = record { at = λ s. record { promise = refl; serial = refl } }

  pub check_committed-SameEpoch : (req : RequestInfo) → Moves SameEpoch (check_committed req)
  unfolding check_committed
  check_committed-SameEpoch req = search same_epoch_rules

  pub abort_cur_segment-SameEpoch : Moves SameEpoch abort_cur_segment
  unfolding abort_cur_segment ◌>>=◌
  abort_cur_segment-SameEpoch = record {
    at = λ j. record { promise = ground arith; serial = ground arith };
  }

  check_epoch-IsLoaded :
      (req : RequestInfo) (j : Journal)
      → IsLoaded j
      → IsLoaded (check_epoch req j).1 × Later j (check_epoch req j).1
  unfolding check_epoch get_promised set_promised get set ◌>>=◌
  check_epoch-IsLoaded req j l = ground arith

  check_serial-IsLoaded :
      (req : RequestInfo) (j : Journal)
      → IsLoaded j
      → IsLoaded (check_serial req j).1 × Later j (check_serial req j).1
  unfolding check_serial ◌>>=◌
  check_serial-IsLoaded req j l = ground arith

  -- Whether it is accepted or not, a request moves the promise and the serial number forward only.
  pub check_request-Forward : (req : RequestInfo) → Moves Forward (check_request req)
  unfolding check_request
  check_request-Forward req =
      Moves->>= Forward-preorder _ _
        (record { at = λ j. record { from_loaded = check_epoch-IsLoaded req j } })
        (λ _.
          Moves->>= Forward-preorder _ _
            (record { at = λ j. record { from_loaded = check_serial-IsLoaded req j } })
            (λ _. Forward-of_same _ (check_committed-SameEpoch req)))

  -- A request of an epoch below the promise is refused, and changes nothing.
  pub check_request_stale :
      (req : RequestInfo) (j : Journal)
      → IsLoaded j
      → req.epoch <ℤ promised_epoch j
      → check_request req j ≡ (fail error, j)
  unfolding check_request check_epoch get_promised get ◌>>=◌
  check_request_stale req j l h = ground arith

  -- One of the promised epoch whose serial number is not above the last is undefined behaviour.
  pub check_request_out_of_order :
      (req : RequestInfo) (j : Journal)
      → IsLoaded j
      → req.epoch ≡ promised_epoch j
      → req.ipc_serial_number ≤ℤ j.current_epoch_ipc_serial
      → check_request req j ≡ (fail undefined, j)
  unfolding check_request check_epoch check_serial get_promised get ◌>>=◌
  check_request_out_of_order req j l e h = ground arith

  -- The journal promises the epoch of the request, and keeps its serial number.
  abbrev pub Accepted : RequestInfo → Journal → Type 0
  Accepted req j =
      IsLoaded j
      × (j.last_promised_epoch.value ≡ req.epoch)
      × (j.current_epoch_ipc_serial ≡ req.ipc_serial_number)

  check_epoch_done :
      (req : RequestInfo) (j : Journal) (u : Unit {0})
      → (check_epoch req j).0 ≡ done u
      → IsLoaded (check_epoch req j).1 × (promised_epoch (check_epoch req j).1 ≡ req.epoch)
  unfolding check_epoch get_promised set_promised get set ◌>>=◌
  check_epoch_done req j u h = ground (arith, eq_of_parts j.last_promised_epoch.value req.epoch)

  check_serial_done :
      (req : RequestInfo) (j : Journal) (u : Unit {0})
      → (check_serial req j).0 ≡ done u
      → ((check_serial req j).1.last_promised_epoch ≡ j.last_promised_epoch)
        × ((check_serial req j).1.current_epoch_ipc_serial ≡ req.ipc_serial_number)
        × (j.current_epoch_ipc_serial <ℤ req.ipc_serial_number)
  unfolding check_serial ◌>>=◌
  check_serial_done req j u h = ground arith

  -- An accepted request is the one whose epoch is promised from now on, with its serial number.
  pub check_request-Accepted :
      (req : RequestInfo) (j : Journal) (u : Unit {0})
      → (check_request req j).0 ≡ done u
      → Accepted req (check_request req j).1
  unfolding check_request
  check_request-Accepted req j u h =
      let (a, e1, h1, q1) = >>=-eq-done (check_epoch req) _ j u h in
      let j1 = (check_epoch req j).1 in
      let (b, e2, h2, q2) = >>=-eq-done (check_serial req) _ j1 u h1 in
      let c = (check_committed-SameEpoch req).at (check_serial req j1).1 in
      let s = check_serial_done req j1 b e2 in
      let p = check_epoch_done req j a e1 in rw (q1, q2, c.promise, c.serial, s.0) (p.0, p.1, s.1)

  writer_tail :
      (req : RequestInfo) (j : Journal) (u : Unit {0})
      → ((get_writer >>= λ lwe. stop_if (not (eqb_ℤ req.epoch lwe)) error) j).0 ≡ done u
      → ((get_writer >>= λ lwe. stop_if (not (eqb_ℤ req.epoch lwe)) error)
          j).1.last_writer_epoch.value
        ≡ req.epoch
  unfolding get_writer get ◌>>=◌
  writer_tail req j u h = ground (arith, eq_of_parts req.epoch)

  -- A write request that passes the checks has the epoch that the journal now promises and the
  -- epoch recorded for the last writer, and its serial number is the last one.
  pub check_write_request-Accepted :
      (req : RequestInfo) (j : Journal) (u : Unit {0})
      → (check_write_request req j).0 ≡ done u
      → Accepted req (check_write_request req j).1
        × ((check_write_request req j).1.last_writer_epoch.value ≡ req.epoch)
  unfolding check_write_request
  check_write_request-Accepted req j u h =
      let (a, e1, h1, q1) = >>=-eq-done (check_request req) _ j u h in
      let acc = check_request-Accepted req j a e1 in
      let c : Moves SameEpoch (get_writer >>= λ lwe. stop_if (not (eqb_ℤ req.epoch lwe)) error) =
        search same_epoch_rules in
      let same = c.at (check_request req j).1 in
      rw (q1, same.promise, same.serial) (acc, writer_tail req (check_request req j).1 u h1)
