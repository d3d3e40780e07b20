-- ===== src/EditLog/Torn.antt =====
-- A file whose last transaction has not been written to its end.
use jn_server_cc.EditLog.Short.{
  then_fail, then_done, next_byte_moves, read_short, read_there, stop_passed, byte_there,
}
use mathlib.Core.List.{append_assoc, append-nil}
use jn_server_cc.Base.{
  ℕ, zero, suc, ◌+◌, ◌^◌, ◌≤◌, ◌<◌, ◌≡◌, inl, inr, refl, sym, ap, ◌∙◌, false, [], ◌∷◌, ◌++◌, Bytes,
  length, length-append, drop, ltb, Bool-cases, ℤ, eqb_ℤ, eq_of_parts, arith, fail, error, leb,
  undefined, ◌>>=◌, stop_if, pure, not, ◌==◌,
}
use jn_server_cc.Messages.{to_u64, to_long}
use jn_server_cc.EditLog.Transaction.{
  invalid_txid, opcode, write_int, write_long, content, transaction,
}
use jn_server_cc.EditLog.Input.{
  next_byte, read_as_type, scan_string, scan_op, later, scan_ops, scan_text,
}
use jn_server_cc.EditLog.Scan.{
  drop-cons, read_int_lem, read_long_lem, scan_string_lem, transaction_split, scan_op_lem, size_of,
}
use jn_server_cc.EditLog.Whole.{
  Transactions, records, AreTxids, skip_header_lem, length-transaction, length-records,
}

module _ (crc : Bytes → ℕ) (txid : ℤ) (bytes s m : Bytes) (p : ℕ) (r : Bytes)
    (small : length (s ++ m) < 2 ^ 32) (h : drop p (s ++ m) ≡ transaction crc txid bytes ++ r)
    (begun : p < length s) (torn : length s < p + size_of bytes)
    (fits : p + size_of bytes < 2 ^ 32) where
  -- The reads behind the length and behind the txid.
  checksum_torn :
      (txid' : ℕ)
      → suc p + 4 + 8 ≤ length s
      → ((scan_string (12 + length bytes) >>= λ _.
            (read_as_type 4 0 s >>= λ checksum. pure (to_long txid')))
          (suc p + 4 + 8)).0
        ≡ fail undefined
  checksum_torn txid' there =
      then_done (scan_string (12 + length bytes)) _ (suc p + 4 + 8) (suc p + 4 + 8 + length bytes)
        tt (scan_string_lem (length bytes) (suc p + 4 + 8) (omega (arith, fits)))
        (then_fail (read_as_type 4 0 s) _ (suc p + 4 + 8 + length bytes) (
          read_short 3 0 s (suc p + 4 + 8 + length bytes) (omega (arith, fits))
            (omega (arith, torn))))

  scan_op_torn : (scan_op s p).0 ≡ fail undefined
  unfolding scan_op
  scan_op_torn =
      let rest3 = bytes ++ (write_int (crc (content txid bytes)) ++ r) in
      let rest2 = write_long txid ++ rest3 in
      let rest1 = write_int (12 + length bytes) ++ rest2 in
      let h0 : drop p (s ++ m) ≡ opcode ∷ rest1 = h ∙ transaction_split crc txid bytes r in
      let (g0, h1, lt) = drop-cons p (s ++ m) opcode rest1 h0 in
      let e1 =
        next_byte_moves s p opcode (omega (arith, fits)) (byte_there s m p opcode begun g0) in
      let (e2, h2) =
        read_int_lem (12 + length bytes) (s ++ m) (suc p) rest2 small (omega (arith, fits)) h1 in
      let (e3, h3) = read_long_lem txid (s ++ m) (suc p + 4) rest3 small h2 in
      let ahead : leb (length s) p ≡ false = ground (arith, begun) in
      rw (ahead) (
        then_done (next_byte s) _ p (suc p) opcode e1 (
          then_done (stop_if (not (opcode == opcode)) error) _ (suc p) (suc p) tt
            (stop_passed error (suc p) refl)
            (elim (Bool-cases (ltb (length s) (suc p + 4))) [
              | inl c ↦
                  then_fail (read_as_type 4 0 s) _ (suc p)
                    (read_short 3 0 s (suc p) (omega (arith, fits)) (ground (arith, c)))
              | inr c ↦
                  then_done (read_as_type 4 0 s) _ (suc p) (suc p + 4) (12 + length bytes)
                    (read_there 4 0 s m (suc p) (omega (arith, fits)) (ground (arith, c)) ∙ e2)
                    (elim (Bool-cases (ltb (length s) (suc p + 4 + 8))) [
                      | inl c' ↦
                          then_fail (read_as_type 8 0 s) _ (suc p + 4) (
                            read_short 7 0 s (suc p + 4) (omega (arith, fits)) (ground (arith, c')))
                      | inr c' ↦
                          then_done (read_as_type 8 0 s) _ (suc p + 4) (suc p + 4 + 8) (to_u64 txid)
                            (read_there 8 0 s m (suc p + 4) (omega (arith, fits))
                                (ground (arith, c'))
                              ∙ e3)
                            (checksum_torn (to_u64 txid) (ground (arith, c')))
                    ])
            ])))

drop-longer :
    (p : ℕ) (s m : Bytes) (b : ℕ) (r : Bytes)
    → drop p s ≡ b ∷ r
    → (drop p (s ++ m) ≡ b ∷ (r ++ m)) × (length s ≡ p + suc (length r))
drop-longer zero s m b r h = rw h (refl, omega arith)
drop-longer (suc p) [] m b r h = absurd (cc h)
drop-longer (suc p) (c ∷ s) m b r h = let (e, l) = drop-longer p s m b r h in (e, omega (arith, l))

scan_ops_torn :
    (crc : Bytes → ℕ) (ts : Transactions) (txid : ℤ) (bytes s : Bytes) (b : ℕ) (piece : Bytes)
    (c : ℕ) (m : Bytes) (rounds : ℕ) (last : ℤ) (p : ℕ)
    → length (s ++ c ∷ m) < 2 ^ 32
    → ((t : Bytes) → crc t < 2 ^ 32)
    → AreTxids ts
    → b ∷ (piece ++ c ∷ m) ≡ transaction crc txid bytes
    → drop p s ≡ records crc ts ++ b ∷ piece
    → length ts < rounds
    → (scan_ops rounds s last p).0 ≡ fail undefined
unfolding scan_ops
scan_ops_torn crc [] txid bytes s b piece c m zero last p small sum ok whole h fuel =
    absurd (omega (arith, fuel))
scan_ops_torn crc [] txid bytes s b piece c m (suc rounds) last p small sum ok whole h fuel =
    let (w, l) = drop-longer p s (c ∷ m) b piece h in
    let size = length-transaction crc txid bytes in
    let parts = ap length whole in
    let lp = length-append piece (c ∷ m) in
    let ls = length-append s (c ∷ m) in
    let e =
      scan_op_torn crc txid bytes s (c ∷ m) p [] small (w ∙ whole ∙ sym (append-nil _))
        (omega (arith, l)) (omega (arith, l, size, parts, lp))
        (omega (arith, small, l, size, parts, lp, ls)) in
    rw (scan_ops, e) refl
scan_ops_torn crc (t ∷ ts) txid bytes s b piece c m zero last p small sum ok whole h fuel =
    absurd (omega (arith, fuel))
scan_ops_torn crc ((txid', bytes') ∷ ts) txid bytes s b piece c m (suc rounds) last p small sum
      (long, real, ok) whole h fuel =
    let ls = length-append s (c ∷ m) in
    let (e, h') =
      scan_op_lem crc txid' bytes' s p (records crc ts ++ b ∷ piece) (omega (arith, small, ls)) long
        sum (h ∙ append_assoc (transaction crc txid' bytes') (records crc ts) (b ∷ piece)) in
    let ne : eqb_ℤ txid' invalid_txid ≡ false = ground (arith, eq_of_parts txid' invalid_txid) in
    rw (scan_ops, e, ne, e)
      (scan_ops_torn crc ts txid bytes s b piece c m rounds (later last txid') (p + size_of bytes')
        small sum ok whole h' (omega (arith, fuel)))

-- A file with whole transactions, and behind them the first bytes of one more.
abbrev pub torn_file : (Bytes → ℕ) → ℤ → Transactions → Bytes → Bytes
torn_file crc version ts piece =
    write_int (to_u64 version) ++ (write_int 0 ++ (records crc ts ++ piece))

-- Scanning an edit log that ends in the middle of a transaction, behind the header and whole
-- transactions, with at least one byte of it there and one missing, is undefined behaviour, a
-- read behind the text, wherever it is cut. The text with the next missing bytes has fewer than 2
-- ^ 32 bytes, every checksum is below 2 ^ 32, and every txid of the whole transactions is a long
-- and not INVALID_TXID.
pub scan_text-torn_file :
    (crc : Bytes → ℕ) (version : ℤ) (ts : Transactions) (txid : ℤ) (bytes : Bytes) (b : ℕ)
    (piece : Bytes) (c : ℕ) (m : Bytes)
    → length (torn_file crc version ts (b ∷ piece) ++ c ∷ m) < 2 ^ 32
    → ((t : Bytes) → crc t < 2 ^ 32)
    → AreTxids ts
    → b ∷ (piece ++ c ∷ m) ≡ transaction crc txid bytes
    → scan_text (torn_file crc version ts (b ∷ piece)) ≡ fail undefined
unfolding scan_text ◌>>=◌
scan_text-torn_file crc version ts txid bytes b piece c m small sum ok whole =
    let s = torn_file crc version ts (b ∷ piece) in
    let ls = length-append s (c ∷ m) in
    let (e, h) =
      skip_header_lem s (to_u64 version) (records crc ts ++ b ∷ piece) (omega (arith, small, ls))
        refl in
    let l1 =
      length-append (write_int (to_u64 version)) (write_int 0 ++ (records crc ts ++ b ∷ piece)) in
    let l2 = length-append (write_int 0) (records crc ts ++ b ∷ piece) in
    let l3 = length-append (records crc ts) (b ∷ piece) in
    let enough : length ts < suc (length s) = omega (arith, length-records crc ts, l1, l2, l3) in
    rw (scan_text, e)
      (scan_ops_torn crc ts txid bytes s b piece c m (suc (length s)) invalid_txid 8 small sum ok
        whole h enough)
