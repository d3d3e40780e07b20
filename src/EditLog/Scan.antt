-- ===== src/EditLog/Scan.antt =====
-- A file of whole transactions is scanned to its end, and gives the last txid.
use jn_server_cc.Base.{
  ℕ, zero, suc, ◌+◌, ◌-◌, ◌*◌, ◌%◌, ◌^◌, ◌≤◌, ◌<◌, ◌≡◌, ap, ◌∙◌, false, [], ◌∷◌, ◌++◌, some, Bytes,
  length, length-append, get_elem?, drop, ℤ, pos, negsuc, arith, done, ◌>>=◌, ◌>>◌, pure, leb,
}
use mathlib.Core.List.{append_assoc}
use jn_server_cc.Messages.{to_u64, to_long}
use jn_server_cc.Text.RoundTrip.{IsLong}
use jn_server_cc.EditLog.Transaction.{
  opcode, store_as_big_endian, write_int, write_long, content, transaction,
}
use jn_server_cc.EditLog.Input.{Reader, next_byte, read_as_type, read_int, scan_string, scan_op}

-- The text has a byte and a rest at a position.
pub drop-cons :
    (p : ℕ) (s : Bytes) (b : ℕ) (r : Bytes)
    → drop p s ≡ b ∷ r
    → (get_elem? s p ≡ some b) × (drop (suc p) s ≡ r) × (p < length s)
drop-cons zero [] b r h = absurd (cc h)
drop-cons zero (c ∷ s) b r h = ground arith
drop-cons (suc p) [] b r h = absurd (cc h)
drop-cons (suc p) (c ∷ s) b r h = ground (arith, drop-cons p s b r h)

pub drop-past : (p : ℕ) (s : Bytes) → drop p s ≡ [] → length s ≤ p
drop-past zero [] h = omega arith
drop-past zero (c ∷ s) h = absurd (cc h)
drop-past (suc p) [] h = omega arith
drop-past (suc p) (c ∷ s) h = omega (arith, drop-past p s h)

pub drop-add : (p : ℕ) (s xs r : Bytes) → drop p s ≡ xs ++ r → drop (p + length xs) s ≡ r
drop-add p s [] r h = rw ((let e : p + 0 ≡ p = omega arith in e)) h
drop-add p s (x ∷ xs) r h =
    rw ((let e : p + suc (length xs) ≡ suc p + length xs = omega arith in e))
      (drop-add (suc p) s xs r (drop-cons p s x (xs ++ r) h).1)

-- The number that some bytes spell, the highest first.
abbrev pub be_value : ℕ → Bytes → ℕ
be_value acc [] = acc
be_value acc (b ∷ bs) = be_value (acc * 256 + b) bs

next_byte_lem :
    (s : Bytes) (p b : ℕ) (r : Bytes)
    → length s < 2 ^ 32
    → drop p s ≡ b ∷ r
    → next_byte s p ≡ (done b, suc p)
unfolding next_byte
next_byte_lem s p b r small h = ground (arith, drop-cons p s b r h)

pub read_lem :
    (bs : Bytes) (acc : ℕ) (s : Bytes) (p : ℕ) (r : Bytes)
    → length s < 2 ^ 32
    → drop p s ≡ bs ++ r
    → read_as_type (length bs) acc s p ≡ (done (be_value acc bs), p + length bs)
unfolding read_as_type ◌>>=◌
read_lem [] acc s p r small h = ground arith
read_lem (b ∷ bs) acc s p r small h = rw (next_byte_lem s p b (bs ++ r) small h) (
    read_lem bs (acc * 256 + b) s (suc p) r small (drop-cons p s b (bs ++ r) h).1
    ∙ ap (λ (q : ℕ). (done (be_value (acc * 256 + b) bs), q)) (omega arith))

be_value-write_int : (n : ℕ) → n < 2 ^ 32 → be_value 0 (write_int n) ≡ n
unfolding write_int store_as_big_endian
be_value-write_int n h = omega arith

be_value-u64 : (n : ℕ) → n < 2 ^ 64 → be_value 0 (store_as_big_endian 8 n) ≡ n
unfolding store_as_big_endian
be_value-u64 n h = omega arith

to_u64-lt : (z : ℤ) → to_u64 z < 2 ^ 64
to_u64-lt (pos n) = omega arith
to_u64-lt (negsuc n) = omega arith

pub to_long-to_u64 : (z : ℤ) → IsLong z → to_long (to_u64 z) ≡ z
to_long-to_u64 (pos n) h = ground arith
to_long-to_u64 (negsuc n) h = ground arith

-- An `int` and a `long` are read as they were written, and the text goes on behind them.
pub read_int_lem :
    (n : ℕ) (s : Bytes) (p : ℕ) (r : Bytes)
    → length s < 2 ^ 32
    → n < 2 ^ 32
    → drop p s ≡ write_int n ++ r
    → (read_as_type 4 0 s p ≡ (done n, p + 4)) × (drop (p + 4) s ≡ r)
unfolding write_int
read_int_lem n s p r small fits h = (
  read_lem (write_int n) 0 s p r small h
      ∙ ap (λ (v : ℕ). (done v, p + 4)) (be_value-write_int n fits),
  drop-add p s (write_int n) r h,
)

pub read_long_lem :
    (z : ℤ) (s : Bytes) (p : ℕ) (r : Bytes)
    → length s < 2 ^ 32
    → drop p s ≡ write_long z ++ r
    → (read_as_type 8 0 s p ≡ (done (to_u64 z), p + 8)) × (drop (p + 8) s ≡ r)
unfolding write_long
read_long_lem z s p r small h = (
  read_lem (store_as_big_endian 8 (to_u64 z)) 0 s p r small h
      ∙ ap (λ (v : ℕ). (done v, p + 8)) (be_value-u64 (to_u64 z) (to_u64-lt z)),
  drop-add p s (write_long z) r h,
)

-- The bytes of a transaction in front of a rest, bracketed as they are read.
pub transaction_split :
    (crc : Bytes → ℕ) (txid : ℤ) (bytes r : Bytes)
    → transaction crc txid bytes ++ r
      ≡ opcode
        ∷ (write_int (12 + length bytes)
            ++ (write_long txid ++ (bytes ++ (write_int (crc (content txid bytes)) ++ r))))
unfolding transaction content
transaction_split crc txid bytes r =
    let e : 17 + length bytes - 5 ≡ 12 + length bytes = omega arith in rw e (simp append_assoc)

abbrev pub size_of : Bytes → ℕ
size_of bytes = 17 + length bytes

drop-le : (p : ℕ) (s r : Bytes) → drop p s ≡ r → length r ≤ length s - p
drop-le zero s r h = omega (arith, ap length h)
drop-le (suc p) [] r h = omega (arith, ap length h)
drop-le (suc p) (c ∷ s) r h = omega (arith, drop-le p s r h)

pub scan_string_lem : (n p : ℕ) → p + n < 2 ^ 32 → scan_string (12 + n) p ≡ (done tt, p + n)
unfolding scan_string
scan_string_lem n p h =
    ap (λ (q : ℕ). (done tt, q))
      (let e : (p + (12 + n + 2 ^ 32 - 12) % 2 ^ 32) % 2 ^ 32 ≡ p + n = omega arith in e)

front_size :
    (n : ℕ) (z : ℤ) (bytes rest s : Bytes) (p : ℕ)
    → drop p s ≡ opcode ∷ (write_int n ++ (write_long z ++ (bytes ++ rest)))
    → p + 13 + length bytes + length rest ≤ length s + (p - length s) × (p < length s)
unfolding write_int write_long
front_size n z bytes rest s p h =
    let l = length-append bytes rest in
    let lt = (drop-cons p s opcode _ h).2 in (omega (arith, drop-le p s _ h, l, lt), lt)

then_done :
    {A : Type 0} (m : Reader (Unit {0})) (k : Reader A) (p q : ℕ)
    → m p ≡ (done tt, q)
    → (m >> k) p ≡ k q
unfolding ◌>>=◌
then_done m k p q h = rw h

-- Scanning one operation steps over it and gives its txid.
pub scan_op_lem :
    (crc : Bytes → ℕ) (txid : ℤ) (bytes : Bytes) (s : Bytes) (p : ℕ) (r : Bytes)
    → length s < 2 ^ 32
    → IsLong txid
    → ((b : Bytes) → crc b < 2 ^ 32)
    → drop p s ≡ transaction crc txid bytes ++ r
    → (scan_op s p ≡ (done txid, p + size_of bytes)) × (drop (p + size_of bytes) s ≡ r)
unfolding scan_op ◌>>=◌
scan_op_lem crc txid bytes s p r small long sum h =
    let rest4 = write_int (crc (content txid bytes)) ++ r in
    let rest3 = bytes ++ rest4 in
    let rest2 = write_long txid ++ rest3 in
    let rest1 = write_int (12 + length bytes) ++ rest2 in
    let h0 : drop p s ≡ opcode ∷ rest1 = h ∙ transaction_split crc txid bytes r in
    let (g0, h1, lt) = drop-cons p s opcode rest1 h0 in
    let (fits, _) = front_size (12 + length bytes) txid bytes rest4 s p h0 in
    let (e2, h2) = read_int_lem (12 + length bytes) s (suc p) rest2 small (omega arith) h1 in
    let (e3, h3) = read_long_lem txid s (suc p + 4) rest3 small h2 in
    let h4 = drop-add (suc p + 4 + 8) s bytes rest4 h3 in
    let e4 = scan_string_lem (length bytes) (suc p + 4 + 8) (omega arith) in
    let (e5, h5) =
      read_int_lem (crc (content txid bytes)) s (suc p + 4 + 8 + length bytes) r small (sum _) h4 in
    let e4' =
      then_done (scan_string (12 + length bytes))
        (read_int s >>= λ checksum. pure (to_long (to_u64 txid))) (suc p + 4 + 8) _ e4 in
    let ahead : leb (length s) p ≡ false = ground arith in
    let e1 = next_byte_lem s p opcode rest1 small h0 in
    let q : suc p + 4 + 8 + length bytes + 4 ≡ p + size_of bytes = omega arith in
    (rw (ahead, e1, e2, e3, e4', e5, to_long-to_u64 txid long, q), rw (← q) h5)
