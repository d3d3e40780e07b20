-- ===== src/EditLog/Whole.antt =====
-- A file of whole transactions, as the output stream writes it, is scanned to its end.
use jn_server_cc.Base.{
  ℕ, zero, suc, ◌+◌, ◌^◌, ◌≤◌, ◌<◌, ◌≡◌, ◌≢◌, refl, false, List, [], ◌∷◌, ◌++◌, Bytes, length,
  length-append, drop, ℤ, eqb_ℤ, eq_of_parts, arith, done, ◌>>=◌,
}
use jn_server_cc.Messages.{to_u64}
use jn_server_cc.Text.RoundTrip.{IsLong}
use jn_server_cc.EditLog.Transaction.{invalid_txid, write_int, content, transaction}
use jn_server_cc.EditLog.Input.{scan_op, later, scan_ops, skip_header, scan_text}
use jn_server_cc.EditLog.Scan.{drop-past, drop-add, read_lem, read_int_lem, size_of, scan_op_lem}

-- The transactions of a segment: their txids and data, in the order of the file.
abbrev pub Transactions : Type 0
Transactions = List (ℤ × Bytes)

abbrev pub records : (Bytes → ℕ) → Transactions → Bytes
records crc [] = []
records crc ((txid, bytes) ∷ ts) = transaction crc txid bytes ++ records crc ts

abbrev pub AreTxids : Transactions → Type 0
AreTxids [] = Unit {0}
AreTxids ((txid, bytes) ∷ ts) = IsLong txid × (txid ≢ invalid_txid) × AreTxids ts

-- The highest txid, from the highest so far.
abbrev pub last_of : ℤ → Transactions → ℤ
last_of last [] = last
last_of last ((txid, bytes) ∷ ts) = last_of (later last txid) ts

scan_op_end : (s : Bytes) (p : ℕ) → length s ≤ p → scan_op s p ≡ (done invalid_txid, p)
unfolding scan_op
scan_op_end s p h = ground arith

scan_ops_lem :
    (crc : Bytes → ℕ) (ts : Transactions) (s : Bytes) (rounds : ℕ) (last : ℤ) (p : ℕ)
    → length s < 2 ^ 32
    → ((b : Bytes) → crc b < 2 ^ 32)
    → AreTxids ts
    → drop p s ≡ records crc ts
    → length ts < rounds
    → (scan_ops rounds s last p).0 ≡ done (last_of last ts)
unfolding scan_ops
scan_ops_lem crc [] s zero last p small sum ok h fuel = absurd (omega arith)
scan_ops_lem crc [] s (suc rounds) last p small sum ok h fuel =
    rw (scan_ops, scan_op_end s p (drop-past p s h)) refl
scan_ops_lem crc (t ∷ ts) s zero last p small sum ok h fuel = absurd (omega arith)
scan_ops_lem crc ((txid, bytes) ∷ ts) s (suc rounds) last p small sum (long, real, ok) h fuel =
    let (e, h') = scan_op_lem crc txid bytes s p (records crc ts) small long sum h in
    let ne : eqb_ℤ txid invalid_txid ≡ false = ground (arith, eq_of_parts txid invalid_txid) in
    rw (scan_ops, e, ne, e)
      (scan_ops_lem crc ts s rounds (later last txid) (p + size_of bytes) small sum ok h'
        (omega arith))

pub length-transaction :
    (crc : Bytes → ℕ) (txid : ℤ) (bytes : Bytes)
    → length (transaction crc txid bytes) ≡ size_of bytes
unfolding transaction content
length-transaction crc txid bytes =
    omega (arith, length-append bytes (write_int (crc (content txid bytes))))

pub length-records : (crc : Bytes → ℕ) (ts : Transactions) → length ts ≤ length (records crc ts)
length-records crc [] = omega arith
length-records crc ((txid, bytes) ∷ ts) = omega (
  arith,
  length-append (transaction crc txid bytes) (records crc ts),
  length-transaction crc txid bytes,
  length-records crc ts,
)

-- A whole file, with the header that `create` writes for a layout version.
abbrev pub file_of : (Bytes → ℕ) → ℤ → Transactions → Bytes
file_of crc version ts = write_int (to_u64 version) ++ (write_int 0 ++ records crc ts)

pub skip_header_lem :
    (s : Bytes) (n : ℕ) (r : Bytes)
    → length s < 2 ^ 32
    → s ≡ write_int n ++ (write_int 0 ++ r)
    → (skip_header s 0 ≡ (done tt, 8)) × (drop 8 s ≡ r)
unfolding skip_header ◌>>=◌ write_int
skip_header_lem s n r small h =
    let e1 = read_lem (write_int n) 0 s 0 (write_int 0 ++ r) small h in
    let (e2, h2) = read_int_lem 0 s 4 r small (omega arith) (drop-add 0 s (write_int n) _ h) in
    (rw (e1, e2) refl, h2)

-- Scanning the text of an edit log, a header and then transactions as a writer sends them, gives
-- the highest txid of the transactions for every list of them: the loop ends and every read lies
-- in the text. The text has fewer than 2 ^ 32 bytes, every checksum is below 2 ^ 32, and every
-- txid is a long and not INVALID_TXID.
pub scan_text-file_of :
    (crc : Bytes → ℕ) (version : ℤ) (ts : Transactions)
    → length (file_of crc version ts) < 2 ^ 32
    → ((b : Bytes) → crc b < 2 ^ 32)
    → AreTxids ts
    → scan_text (file_of crc version ts) ≡ done (last_of invalid_txid ts)
unfolding scan_text ◌>>=◌
scan_text-file_of crc version ts small sum ok =
    let s = file_of crc version ts in
    let (e, h) = skip_header_lem s (to_u64 version) (records crc ts) small refl in
    let len = length-append (write_int (to_u64 version)) (write_int 0 ++ records crc ts) in
    let len' = length-append (write_int 0) (records crc ts) in
    let enough : length ts < suc (length s) = omega (arith, length-records crc ts, len, len') in
    rw (scan_text, e) (scan_ops_lem crc ts s (suc (length s)) invalid_txid 8 small sum ok h enough)
