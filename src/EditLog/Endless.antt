-- ===== src/EditLog/Endless.antt =====
-- The rounds of the scan loop of src/JNClientInputStream.cpp: what it means that they are used up.
use jn_server_cc.Base.{
  ℕ, zero, suc, ◌+◌, ◌*◌, ◌-◌, ◌≡◌, ◌≢◌, ◌<◌, refl, sym, ◌∙◌, ap, inl, inr, Bool, true, false, not,
  leb, ltb, ◌==◌, eqb_ℤ, arith, Bytes, length, ℤ, Stop, Outcome, done, fail, error, diverge, pure,
  stop_if, Outcome-cases, Bool-cases, ◌>>=◌, ◌>>◌,
}
use jn_server_cc.Base.Pigeonhole.{pigeonhole}
use jn_server_cc.EditLog.Transaction.{invalid_txid, opcode}
use jn_server_cc.Messages.{to_long}
use jn_server_cc.EditLog.Input.{
  Reader, later, scan_op, scan_ops, read_as_type, read_int, read_long, next_byte, scan_string,
}

-- Whether the loop goes on behind an operation, and where.
abbrev goes_on : Outcome ℤ → Bool
goes_on (fail e) = false
goes_on (done txid) = not (eqb_ℤ txid invalid_txid)

abbrev goes : Bytes → ℕ → Bool
goes s p = goes_on (scan_op s p).0

abbrev walk : Bytes → ℕ → ℕ → ℕ
walk s zero p = p
walk s (suc k) p = walk s k (scan_op s p).1

walk-add : (s : Bytes) (a b p : ℕ) → walk s (a + b) p ≡ walk s b (walk s a p)
walk-add s zero b p = let e : 0 + b ≡ b = omega arith in ap (λ k. walk s k p) e
walk-add s (suc a) b p =
    let e : suc a + b ≡ suc (a + b) = omega arith in
    ap (λ k. walk s k p) e ∙ walk-add s a b (scan_op s p).1

goes_inside : (s : Bytes) (p : ℕ) → goes s p ≡ true → p < length s
unfolding scan_op
goes_inside s p h = ground arith

-- A step of the reader that does not loop.
abbrev Ends : {A : Type 0} → Reader A → Type 0
Ends m = (p : ℕ) → (m p).0 ≢ fail diverge

fail_diverge :
    {A B : Type 0} (x : Stop)
    → ◌≡◌ {A = Outcome B} (fail x) (fail diverge)
    → ◌≡◌ {A = Outcome A} (fail x) (fail diverge)
fail_diverge x h = let e : x ≡ diverge = cc h in ap fail e

Ends->>= :
    {A B : Type 0} (m : Reader A) (f : A → Reader B)
    → Ends m
    → ((a : A) → Ends (f a))
    → Ends (m >>= f)
unfolding ◌>>=◌
Ends->>= m f h g p e = elim (Outcome-cases (m p).0) [
  | inl (a, q) ↦ g a (m p).1 (rw q at e)
  | inr (x, q) ↦ h p (q ∙ fail_diverge x (rw q at e))
]

next_byte-Ends : (s : Bytes) → Ends (next_byte s)
unfolding next_byte
next_byte-Ends s p e = ground arith

pure-Ends : {A : Type 0} (a : A) → Ends (pure a)
unfolding ◌>>=◌
pure-Ends a p e = cc e

stop_if-Ends : (b : Bool) → Ends (stop_if b error)
unfolding ◌>>=◌
stop_if-Ends true p e = cc e
stop_if-Ends false p e = cc e

scan_string-Ends : (k : ℕ) → Ends (scan_string k)
unfolding scan_string
scan_string-Ends k p e = cc e

read_as_type-Ends : (k acc : ℕ) (s : Bytes) → Ends (read_as_type k acc s)
unfolding read_as_type
read_as_type-Ends zero acc s p = pure-Ends acc p
read_as_type-Ends (suc k) acc s p =
    Ends->>= (next_byte s) _ (next_byte-Ends s) (λ b. read_as_type-Ends k (acc * 256 + b) s) p

-- An operation, in front of the end of the text.
abbrev operation : Bytes → Reader ℤ
operation s = do
  code ← next_byte s
  stop_if (not (code == opcode)) error
  length ← read_int s
  txid ← read_long s
  scan_string length
  checksum ← read_int s
  pure (to_long txid)

operation-Ends : (s : Bytes) → Ends (operation s)
operation-Ends s = Ends->>= (next_byte s) _ (next_byte-Ends s) (λ code.
    Ends->>= (stop_if (not (code == opcode)) error) _ (stop_if-Ends (not (code == opcode))) (λ u.
      Ends->>= (read_int s) _ (read_as_type-Ends 4 0 s) (λ length.
        Ends->>= (read_long s) _ (read_as_type-Ends 8 0 s) (λ txid.
          Ends->>= (scan_string length) _ (scan_string-Ends length) (λ v.
            Ends->>= (read_int s) _ (read_as_type-Ends 4 0 s)
              (λ checksum. pure-Ends (to_long txid)))))))

scan_op-Ends : (s : Bytes) → Ends (scan_op s)
unfolding scan_op
scan_op-Ends s p e = elim (Bool-cases (leb (length s) p)) [
  | inl q ↦ absurd (cc (rw (scan_op, q) at e))
  | inr q ↦ operation-Ends s p (rw (scan_op, q) at e)
]

-- A loop that has not ended within some rounds goes on at its first operation.
goes_first :
    (rounds : ℕ) (s : Bytes) (last : ℤ) (p : ℕ)
    → (scan_ops (suc rounds) s last p).0 ≡ fail diverge
    → (goes s p ≡ true) × (last' : ℤ) × ((scan_ops rounds s last' (scan_op s p).1).0 ≡ fail diverge)
unfolding scan_ops
goes_first rounds s last p h = elim (Outcome-cases (scan_op s p).0) [
  | inr (x, q) ↦ absurd (scan_op-Ends s p (q ∙ (rw (scan_ops, q) at h)))
  | inl (txid, q) ↦ elim (Bool-cases (eqb_ℤ txid invalid_txid)) [
    | inl b ↦ absurd (cc (rw (scan_ops, q, b) at h))
    | inr b ↦ (ap goes_on q ∙ ap not b, later last txid, rw (scan_ops, q, b) at h)
  ]
]

-- So it does at each position so far.
diverging_goes :
    (rounds : ℕ) (s : Bytes) (last : ℤ) (p i : ℕ)
    → (scan_ops rounds s last p).0 ≡ fail diverge
    → i < rounds
    → goes s (walk s i p) ≡ true
diverging_goes zero s last p i h lt = absurd (omega (arith, lt))
diverging_goes (suc rounds) s last p zero h lt = (goes_first rounds s last p h).0
diverging_goes (suc rounds) s last p (suc i) h lt =
    let (_, last', h') = goes_first rounds s last p h in
    diverging_goes rounds s last' (scan_op s p).1 i h' (omega (arith, lt))

-- And where it goes on at each position, no number of rounds is enough.
goes_diverging :
    (rounds : ℕ) (s : Bytes) (last : ℤ) (p : ℕ)
    → ((i : ℕ) → goes s (walk s i p) ≡ true)
    → (scan_ops rounds s last p).0 ≡ fail diverge
unfolding scan_ops
goes_diverging zero s last p h = refl
goes_diverging (suc rounds) s last p h = elim (Outcome-cases (scan_op s p).0) [
  | inr (x, q) ↦ absurd (cc (sym (h 0) ∙ ap goes_on q))
  | inl (txid, q) ↦ elim (Bool-cases (eqb_ℤ txid invalid_txid)) [
    | inl b ↦ absurd (cc (sym (h 0) ∙ ap goes_on q ∙ ap not b))
    | inr b ↦
        rw (scan_ops, q, b)
          (goes_diverging rounds s (later last txid) (scan_op s p).1 (λ i. h (suc i)))
  ]
]

-- A walk that meets a position twice goes on for ever if it has gone on until then.
walk_again :
    (s : Bytes) (p i j r : ℕ) → walk s i p ≡ walk s j p → walk s (j + r) p ≡ walk s (i + r) p
walk_again s p i j r e = walk-add s j r p ∙ ap (walk s r) (sym e) ∙ sym (walk-add s i r p)

goes_for_ever :
    (s : Bytes) (p i j : ℕ)
    → i < j
    → walk s i p ≡ walk s j p
    → ((k : ℕ) → k < j → goes s (walk s k p) ≡ true)
    → (bound m : ℕ) → m < bound
    → goes s (walk s m p) ≡ true
goes_for_ever s p i j lt e h zero m b = absurd (omega (arith, b))
goes_for_ever s p i j lt e h (suc bound) m b = elim (Bool-cases (ltb m j)) [
  | inl q ↦ h m (ground arith)
  | inr q ↦
      let back : j + (m - j) ≡ m = ground arith in
      let before : walk s m p ≡ walk s (i + (m - j)) p =
        ap (λ k. walk s k p) (sym back) ∙ walk_again s p i j (m - j) e in
      rw before (goes_for_ever s p i j lt e h bound (i + (m - j)) (ground arith))
]

-- Where the scan of the operations of a text does not end within one round more than the text has
-- bytes, it does not end within any number of rounds: the loop of the program never ends.
pub scan_ops_rounds :
    (s : Bytes) (last : ℤ) (p rounds : ℕ)
    → (scan_ops (suc (length s)) s last p).0 ≡ fail diverge
    → (scan_ops rounds s last p).0 ≡ fail diverge
scan_ops_rounds s last p rounds h =
    let goes_so_far : (k : ℕ) → k < suc (length s) → goes s (walk s k p) ≡ true =
      λ k lt. diverging_goes (suc (length s)) s last p k h lt in
    let (i, j, lt, le, e) =
      pigeonhole (length s) (λ k. walk s k p)
        (λ k le. goes_inside s (walk s k p) (goes_so_far k (omega (arith, le)))) in
    goes_diverging rounds s last p (λ m.
      goes_for_ever s p i j lt e (λ k below. goes_so_far k (omega (arith, below, le))) (suc m) m
        (omega arith))
