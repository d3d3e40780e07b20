-- ===== src/EditLog/Short.antt =====
-- Reads of a text that ends too early.
use jn_server_cc.Base.{
  ℕ, zero, suc, ◌+◌, ◌*◌, ◌^◌, ◌≤◌, ◌<◌, ◌≡◌, ◌≢◌, inl, inr, refl, sym, ◌∙◌, false, [], ◌∷◌, ◌++◌,
  Bytes, length, get_elem?, get_elem?-append, Option-cases, Bool, some, none, arith, done, fail,
  Stop, undefined, ◌>>=◌, >>=-of_done, stop_if,
}
use jn_server_cc.EditLog.Input.{Reader, next_byte, read_as_type}

get_elem?-before : (s : Bytes) (p b : ℕ) → get_elem? s p ≡ some b → p < length s
get_elem?-before [] p b h = absurd (cc h)
get_elem?-before (c ∷ s) zero b h = omega arith
get_elem?-before (c ∷ s) (suc p) b h = omega (arith, get_elem?-before s p b h)

next_byte-none : (s : Bytes) (p : ℕ) → get_elem? s p ≡ none → (next_byte s p).0 ≡ fail undefined
unfolding next_byte
next_byte-none s p h = rw (next_byte, h) refl

get_elem?-there : (s : Bytes) (p : ℕ) → p < length s → get_elem? s p ≢ none
get_elem?-there [] p h e = absurd (omega (arith, h))
get_elem?-there (c ∷ s) zero h e = absurd (cc e)
get_elem?-there (c ∷ s) (suc p) h e = get_elem?-there s p (omega (arith, h)) e

pub next_byte_moves :
    (s : Bytes) (p b : ℕ)
    → suc p < 2 ^ 32
    → get_elem? s p ≡ some b
    → next_byte s p ≡ (done b, suc p)
unfolding next_byte
next_byte_moves s p b small h = ground arith

pub then_fail :
    {A B : Type 0} (m : Reader A) (f : A → Reader B) (p : ℕ)
    → (m p).0 ≡ fail undefined
    → ((m >>= f) p).0 ≡ fail undefined
unfolding ◌>>=◌
then_fail m f p h = rw h

pub then_done :
    {A B : Type 0} (m : Reader A) (f : A → Reader B) (p q : ℕ) (a : A)
    → m p ≡ (done a, q)
    → (f a q).0 ≡ fail undefined
    → ((m >>= f) p).0 ≡ fail undefined
then_done m f p q a h k = rw (>>=-of_done m f p q a h) k

-- A number of which not all bytes are there is read behind the text.
pub read_short :
    (k acc : ℕ) (s : Bytes) (p : ℕ)
    → p + suc k < 2 ^ 32
    → length s < p + suc k
    → (read_as_type (suc k) acc s p).0 ≡ fail undefined
unfolding read_as_type
read_short zero acc s p small short = elim (Option-cases (get_elem? s p)) [
  | inl e ↦ then_fail (next_byte s) _ p (next_byte-none s p e)
  | inr (b, e) ↦ absurd (omega (arith, short, get_elem?-before s p b e))
]
read_short (suc k) acc s p small short = elim (Option-cases (get_elem? s p)) [
  | inl e ↦ then_fail (next_byte s) _ p (next_byte-none s p e)
  | inr (b, e) ↦
      then_done (next_byte s) (λ c. read_as_type (suc k) (acc * 256 + c) s) p (suc p) b
        (next_byte_moves s p b (omega (arith, small)) e)
        (read_short k (acc * 256 + b) s (suc p) (omega (arith, small)) (omega (arith, short)))
]

-- What is there is read as from the whole text.
pub read_there :
    (k acc : ℕ) (s m : Bytes) (p : ℕ)
    → p + k < 2 ^ 32
    → p + k ≤ length s
    → read_as_type k acc s p ≡ read_as_type k acc (s ++ m) p
unfolding read_as_type
read_there zero acc s m p small enough = refl
read_there (suc k) acc s m p small enough = elim (Option-cases (get_elem? s p)) [
  | inl e ↦ absurd (get_elem?-there s p (omega (arith, enough)) e)
  | inr (b, e) ↦
      >>=-of_done (next_byte s) (λ c. read_as_type k (acc * 256 + c) s) p (suc p) b
        (next_byte_moves s p b (omega (arith, small)) e)
      ∙ read_there k (acc * 256 + b) s m (suc p) (omega (arith, small)) (omega (arith, enough))
      ∙ sym (
          >>=-of_done (next_byte (s ++ m)) (λ c. read_as_type k (acc * 256 + c) (s ++ m)) p (suc p)
            b (next_byte_moves (s ++ m) p b (omega (arith, small)) (get_elem?-append s m p b e)))
]

pub stop_passed : {b : Bool} (e : Stop) (p : ℕ) → b ≡ false → stop_if b e p ≡ (done tt, p)
unfolding ◌>>=◌
stop_passed e p h = rw h refl

pub byte_there :
    (s m : Bytes) (p b : ℕ) → p < length s → get_elem? (s ++ m) p ≡ some b → get_elem? s p ≡ some b
byte_there s m p b h e = elim (Option-cases (get_elem? s p)) [
  | inl n ↦ absurd (get_elem?-there s p h n)
  | inr (c, g) ↦ g ∙ sym (get_elem?-append s m p c g) ∙ e
]
