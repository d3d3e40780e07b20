-- ===== src/EditLog/Input.antt =====
-- src/JNClientInputStream: scanning a file for its last transaction. The position is the 32-bit
-- `size_t` that the header declares; a read behind the text is undefined behaviour.
use jn_server_cc.Base.{
  ℕ, zero, suc, ◌+◌, ◌-◌, ◌*◌, ◌%◌, ◌^◌, Bool, true, false, ◌||◌, Option, none, some, Bytes, length,
  get_elem?, leb, ◌==◌, not, if◌then◌else◌, ℤ, ltb_ℤ, eqb_ℤ, Outcome, Action, done, fail, error,
  undefined, diverge, pure, stop_if, ◌>>=◌, ◌>>◌,
}
use jn_server_cc.Messages.{to_long}
use jn_server_cc.EditLog.Transaction.{invalid_txid, opcode}
use jn_server_cc.Host.{Host}

-- A read moves the position in the text.
abbrev pub Reader : Type 0 → Type 0
Reader A = Action ℕ A

-- `mStrm[mCurPosition++]`
unfoldable pub next_byte : Bytes → Reader ℕ
next_byte s p =
    let p' = (p + 1) % 2 ^ 32 in
    elim (get_elem? s p) [ none ↦ (fail undefined, p') | some b ↦ (done b, p') ]

-- `read_as_type` of `k` bytes, as the unsigned number with that pattern.
unfoldable pub read_as_type : ℕ → ℕ → Bytes → Reader ℕ
unfolding next_byte
read_as_type zero acc s = pure acc
read_as_type (suc k) acc s = do b ← next_byte s; read_as_type k (acc * 256 + b) s

abbrev pub read_int : Bytes → Reader ℕ
read_int = read_as_type 4 0

abbrev pub read_long : Bytes → Reader ℕ
read_long = read_as_type 8 0

-- `scanString(length - 12)`: the argument becomes an unsigned 32-bit number.
unfoldable pub scan_string : ℕ → Reader (Unit {0})
scan_string length p = (done tt, (p + (length + 2 ^ 32 - 12) % 2 ^ 32) % 2 ^ 32)

-- One operation: its txid, or INVALID_TXID at the end of the text.
unfoldable pub scan_op : Bytes → Reader ℤ
unfolding read_as_type scan_string
scan_op s p =
    if leb (length s) p
    then (done invalid_txid, p)
    else (do
      code ← next_byte s
      stop_if (not (code == opcode)) error
      length ← read_int s
      txid ← read_long s
      scan_string length
      checksum ← read_int s
      pure (to_long txid))
        p

-- `if (tempLast == INVALID_TXID || txid > tempLast) tempLast = txid`
abbrev pub later : ℤ → ℤ → ℤ
later last txid = if eqb_ℤ last invalid_txid || ltb_ℤ last txid then txid else last

-- `while (true)`, for at most so many rounds.
unfoldable pub scan_ops : ℕ → Bytes → ℤ → Reader ℤ
unfolding scan_op
scan_ops zero s last p = (fail diverge, p)
scan_ops (suc rounds) s last p =
    let (r, p') = scan_op s p in
    elim r [
      | fail e ↦ (fail e, p')
      | done txid ↦ elim (eqb_ℤ txid invalid_txid) [
        | true ↦ (done last, p')
        | false ↦ scan_ops rounds s (later last txid) p'
      ]
    ]

unfoldable pub skip_header : Bytes → Reader (Unit {0})
unfolding read_as_type
skip_header s = do version ← read_int s; flags ← read_int s; stop_if (not (flags == 0)) error

-- A position is met at most once unless the loop is endless, so a round for each is enough.
unfoldable pub scan_text : Bytes → Outcome ℤ
unfolding skip_header scan_ops
scan_text s = let (r, _) = (do skip_header s; scan_ops (suc (length s)) s invalid_txid) 0 in r

module _ ⦃host : Host⦄ where
  abbrev scanned : ℤ × Bool → Option Bytes → Outcome (Unit {0}) × ℤ × Bool
  scanned (last, corrupt) none = (fail error, invalid_txid, true)
  scanned (last, corrupt) (some text) = elim (scan_text text) [
    | done txid ↦ (done tt, txid, false)
    | fail e ↦ (fail e, last, corrupt)
  ]

  -- `scanLog`: its two reference arguments go in and come back.
  unfoldable pub scan_log : Bytes → host.Disk → ℤ × Bool → Outcome (Unit {0}) × ℤ × Bool
  unfolding scan_text
  scan_log file d old = scanned old (host.read_file file d)
