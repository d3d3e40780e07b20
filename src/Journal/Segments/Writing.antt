-- ===== src/Journal/Segments/Writing.antt =====
-- What `journal` does behind its checks, on every branch.
use jn_server_cc.Base.{
  ◌≡◌, ◌≢◌, ◌⊎◌, inl, inr, Bool-cases, ◌∙◌, none, Bytes, ℤ, pos, ◌+ℤ◌, ◌-ℤ◌, eq_of_parts,
  eq_of_eqb_ℤ, eqb_ℤ, false, true, int_laws, eqb_ℤ_refl, arith, done, fail, error, undefined, ◌>>=◌,
}
use jn_server_cc.Host.{Host}
use jn_server_cc.Text.{is_long}
use jn_server_cc.Journal.State.{Journal, get_committed}
use jn_server_cc.Journal.Epochs.{abort_cur_segment, dropped}
use jn_server_cc.Journal.Segments.{write_records, long_sum, advance, write_batch}

module _ ⦃host : Host⦄ where
  pub next_of_last : (first num : ℤ) → first +ℤ num -ℤ pos 1 +ℤ pos 1 ≡ first +ℤ num
  next_of_last first num = omega int_laws

  write_batch_other_segment :
      (segment first num : ℤ) (records : Bytes) (j : Journal)
      → j.cur_segment_txid ≢ segment
      → write_batch segment first num records j ≡ (fail error, dropped j.cur_segment j)
  unfolding write_batch long_sum abort_cur_segment ◌>>=◌
  write_batch_other_segment segment first num records j h =
      ground (arith, eq_of_parts j.cur_segment_txid segment)

  write_batch_gap :
      (first num : ℤ) (records : Bytes) (j : Journal)
      → j.next_txid ≢ first
      → write_batch j.cur_segment_txid first num records j ≡ (fail error, j)
  unfolding write_batch long_sum ◌>>=◌
  write_batch_gap first num records j h =
      ground (arith, eqb_ℤ_refl j.cur_segment_txid, eq_of_parts j.next_txid first)

  not_eqb : (a b : ℤ) → eqb_ℤ a b ≡ false → a ≢ b
  not_eqb a b h e = absurd (cc (rw (e, eqb_ℤ_refl b) at h))

  write_batch_gap_at :
      (segment first num : ℤ) (records : Bytes) (j : Journal)
      → j.cur_segment_txid ≡ segment
      → (j.cur_segment_txid ≢ segment) ⊎ (j.next_txid ≢ first)
      → (j.cur_segment_txid ≡ segment) × (write_batch segment first num records j ≡ (fail error, j))
  write_batch_gap_at segment first num records j e (inl ne) = absurd (ne e)
  write_batch_gap_at segment first num records j e (inr ne) =
      (e, rw (← e) (write_batch_gap first num records j ne))

  -- A batch that is not for the current segment, or does not begin at the next txid, is refused
  -- with an error behind the checks of journal: in the first case all it does is to end the
  -- current segment, in the second, for the current segment, it changes nothing.
  pub write_batch_refused :
      (segment first num : ℤ) (records : Bytes) (j : Journal)
      → (j.cur_segment_txid ≢ segment) ⊎ (j.next_txid ≢ first)
      → ((j.cur_segment_txid ≢ segment)
          × (write_batch segment first num records j ≡ (fail error, dropped j.cur_segment j)))
        ⊎ ((j.cur_segment_txid ≡ segment)
            × (write_batch segment first num records j ≡ (fail error, j)))
  write_batch_refused segment first num records j h =
      elim (Bool-cases (eqb_ℤ j.cur_segment_txid segment)) [
        | inl b ↦ inr (write_batch_gap_at segment first num records j (eq_of_eqb_ℤ _ _ b) h)
        | inr b ↦
            let ne = not_eqb j.cur_segment_txid segment b in
            inl (ne, write_batch_other_segment segment first num records j ne)
      ]

  write_batch_parts :
      (segment first num : ℤ) (records : Bytes) (j : Journal)
      → (write_batch segment first num records j).0 ≡ done tt
      → (j.cur_segment_txid ≡ segment)
        × (j.next_txid ≡ first)
        × ((write_batch segment first num records j).1.next_txid ≡ first +ℤ num -ℤ pos 1 +ℤ pos 1)
        × ((write_batch segment first num records j).1.highest_written_txid ≡ first +ℤ num -ℤ pos 1)
        × ((write_batch segment first num records j).1.cur_segment_txid ≡ segment)
        × (is_long (first +ℤ num) ≡ true)
  unfolding write_batch write_records abort_cur_segment advance long_sum get_committed ◌>>=◌
  write_batch_parts segment first num records j h =
      ground (arith, eq_of_parts j.cur_segment_txid segment, eq_of_parts j.next_txid first)

  -- A batch that succeeds behind the checks of journal was for the current segment and began at
  -- the next txid; afterwards the next txid is the first plus the number of transactions, the
  -- highest txid written is the one before it, the segment is the same, and the next txid has not
  -- left the range of a long.
  pub write_batch_success :
      (segment first num : ℤ) (records : Bytes) (j : Journal)
      → (write_batch segment first num records j).0 ≡ done tt
      → (j.cur_segment_txid ≡ segment)
        × (j.next_txid ≡ first)
        × ((write_batch segment first num records j).1.next_txid ≡ first +ℤ num)
        × ((write_batch segment first num records j).1.highest_written_txid ≡ first +ℤ num -ℤ pos 1)
        × ((write_batch segment first num records j).1.cur_segment_txid ≡ segment)
        × (is_long (first +ℤ num) ≡ true)
  write_batch_success segment first num records j h =
      let (a, b, c, d, e, f) = write_batch_parts segment first num records j h in
      (a, b, c ∙ next_of_last first num, d, e, f)

  -- With no open segment, and a committed txid that can be read, a batch that names the recorded
  -- segment txid and begins at the next txid passes the checks and ends in undefined behaviour: a
  -- write through a null pointer, where the sum for the last txid has not left the range of a
  -- long before.
  pub write_batch_null :
      (num cti : ℤ) (records : Bytes) (j : Journal)
      → j.cur_segment ≡ none
      → (get_committed j).0 ≡ done cti
      → (write_batch j.cur_segment_txid j.next_txid num records j).0 ≡ fail undefined
  unfolding write_batch long_sum write_records get_committed ◌>>=◌
  write_batch_null num cti records j closed h =
      ground (arith, eqb_ℤ_refl j.cur_segment_txid, eqb_ℤ_refl j.next_txid)
