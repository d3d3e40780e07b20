-- ===== src/Journal/Segments/Starting.antt =====
-- What `startLogSegment` leaves when it succeeds.
use jn_server_cc.Base.{◌≡◌, refl, ◌∙◌, true, some, ℤ, eq_of_parts, arith, done, ◌>>=◌, >>=-eq-done}
use jn_server_cc.Base.Leaves.{Leaves, Leaves->>=}
use jn_server_cc.Host.{Host}
use jn_server_cc.LongFile.Persistent.{get, set}
use jn_server_cc.EditLog.Output.{OutputStream}
use jn_server_cc.Journal.State.{Journal, RequestInfo, reading, changing, get_writer, set_writer}
use jn_server_cc.Journal.Segments.{
  purge_paxos_decision, update_writer_epoch, open_segment, begin_segment, start_log_segment,
}

module _ ⦃host : Host⦄ where
  -- A segment is open, its first transaction is the next one, and the writer's epoch is recorded.
  abbrev pub Started : RequestInfo → ℤ → Journal → Type 0
  Started req txid j =
      ((o : OutputStream) × (j.cur_segment ≡ some o))
      × (j.cur_segment_txid ≡ txid)
      × (j.next_txid ≡ txid)
      × (j.last_writer_epoch.loaded ≡ true)
      × (j.last_writer_epoch.value ≡ req.epoch)

  update_writer_done :
      (req : RequestInfo) (j : Journal) (u : Unit {0})
      → (update_writer_epoch req j).0 ≡ done u
      → ((update_writer_epoch req j).1.last_writer_epoch.loaded ≡ true)
        × ((update_writer_epoch req j).1.last_writer_epoch.value ≡ req.epoch)
  unfolding update_writer_epoch get_writer set_writer get set ◌>>=◌
  update_writer_done req j u h = ground (arith, eq_of_parts j.last_writer_epoch.value req.epoch)

  purge_keeps :
      (txid : ℤ) (j : Journal)
      → (purge_paxos_decision txid j).1.last_writer_epoch ≡ j.last_writer_epoch
  unfolding purge_paxos_decision reading changing ◌>>=◌
  purge_keeps txid j = ground arith

  open_segment_opens :
      (txid version : ℤ) (j : Journal)
      → ((o : OutputStream) × ((open_segment txid version j).1.cur_segment ≡ some o))
        × ((open_segment txid version j).1.last_writer_epoch ≡ j.last_writer_epoch)
  unfolding open_segment
  open_segment_opens txid version j = ((_, refl), refl)

  last_steps :
      (req : RequestInfo) (txid version : ℤ)
      → Leaves (Started req txid) (
          update_writer_epoch req >>= λ _.
          (purge_paxos_decision txid >>= λ _.
          (open_segment txid version >>= λ _. begin_segment txid)))
  unfolding begin_segment ◌>>=◌
  last_steps req txid version = record {
    at = λ j u h.
        let (a, e1, h1, q1) = >>=-eq-done (update_writer_epoch req) _ j u h in
        let j1 = (update_writer_epoch req j).1 in
        let (b, e2, h2, q2) = >>=-eq-done (purge_paxos_decision txid) _ j1 u h1 in
        let j2 = (purge_paxos_decision txid j1).1 in
        let (c, e3, h3, q3) = >>=-eq-done (open_segment txid version) _ j2 u h2 in
        let (opened, kept) = open_segment_opens txid version j2 in
        let (loaded, value) = update_writer_done req j a e1 in
        let same = kept ∙ purge_keeps txid j1 in
        rw (q1, q2, q3, same) (opened, refl, refl, loaded, value);
  }

  -- When startLogSegment succeeds, a segment is open, the current segment and the next txid are
  -- the txid that was asked for, and the epoch of the request is recorded as the last writer's.
  start_log_segment-Started :
      (req : RequestInfo) (txid version : ℤ) (j : Journal)
      → (start_log_segment req txid version j).0 ≡ done tt
      → Started req txid (start_log_segment req txid version j).1
  unfolding start_log_segment
  start_log_segment-Started req txid version j h =
      let all : Leaves (Started req txid) (start_log_segment req txid version) =
        search (Leaves->>=, last_steps) depth 12 in
      all.at j tt h
