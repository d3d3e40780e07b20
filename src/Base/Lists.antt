-- ===== src/Base/Lists.antt =====
-- Byte strings, and lists measured by native numbers.
use Prim.Native.Char.{code}
use Prim.Native.Nat.{ℕ, zero, suc, ◌+◌}
use Prim.Native.String.{String}
use mathlib.Core.Logic.{◌≢◌}
use mathlib.Core.Path.{◌≡◌, refl}
use mathlib.Core.Bool.{Bool, true, false, ◌&&◌}
use mathlib.Core.List.{List, [], ◌∷◌, ◌++◌}
use mathlib.Core.Option.{Option, none, some}
use native.Mathlib.Omega.{arith}
use jn_server_cc.Base.Tests.{◌==◌}

-- A `std::string`, byte by byte.
abbrev pub Bytes : Type 0
Bytes = List ℕ

-- The bytes of an ASCII literal.
abbrev pub codes : String → Bytes
codes String.[] = []
codes (String.◌∷◌ c s) = code c ∷ codes s

module _ {ℓ} {A : Type ℓ} where
  abbrev pub length : List A → ℕ
  length [] = 0
  length (x ∷ xs) = suc (length xs)

  abbrev pub get_elem? : List A → ℕ → Option A
  get_elem? [] i = none
  get_elem? (x ∷ xs) zero = some x
  get_elem? (x ∷ xs) (suc i) = get_elem? xs i

  -- `xs[i] = a`
  abbrev pub set_elem : ℕ → A → List A → List A
  set_elem i a [] = []
  set_elem zero a (x ∷ xs) = a ∷ xs
  set_elem (suc i) a (x ∷ xs) = x ∷ set_elem i a xs

  abbrev pub drop : ℕ → List A → List A
  drop zero xs = xs
  drop (suc n) [] = []
  drop (suc n) (x ∷ xs) = drop n xs

  abbrev pub take : ℕ → List A → List A
  take zero xs = []
  take (suc n) [] = []
  take (suc n) (x ∷ xs) = x ∷ take n xs

  abbrev pub replicate : ℕ → A → List A
  replicate zero a = []
  replicate (suc n) a = a ∷ replicate n a

  pub get_elem?-set_elem_same :
      (xs : List A) (i : ℕ) (a b : A)
      → get_elem? xs i ≡ some b
      → get_elem? (set_elem i a xs) i ≡ some a
  get_elem?-set_elem_same [] i a b h = absurd (cc h)
  get_elem?-set_elem_same (x ∷ xs) zero a b h = refl
  get_elem?-set_elem_same (x ∷ xs) (suc i) a b h = get_elem?-set_elem_same xs i a b h

  pub get_elem?-set_elem_ne :
      (xs : List A) (i k : ℕ) (a : A) → i ≢ k → get_elem? (set_elem k a xs) i ≡ get_elem? xs i
  get_elem?-set_elem_ne [] i k a h = refl
  get_elem?-set_elem_ne (x ∷ xs) zero zero a h = absurd (h refl)
  get_elem?-set_elem_ne (x ∷ xs) (suc i) zero a h = refl
  get_elem?-set_elem_ne (x ∷ xs) zero (suc k) a h = refl
  get_elem?-set_elem_ne (x ∷ xs) (suc i) (suc k) a h =
      get_elem?-set_elem_ne xs i k a (λ e. h (cc e))

  pub get_elem?-append :
      (xs ys : List A) (i : ℕ) (a : A) → get_elem? xs i ≡ some a → get_elem? (xs ++ ys) i ≡ some a
  get_elem?-append [] ys i a h = absurd (cc h)
  get_elem?-append (x ∷ xs) ys zero a h = h
  get_elem?-append (x ∷ xs) ys (suc i) a h = get_elem?-append xs ys i a h

  -- The place behind a list is none of its places.
  pub get_elem?-length : (xs : List A) (i : ℕ) (a : A) → get_elem? xs i ≡ some a → length xs ≢ i
  get_elem?-length [] i a h e = absurd (cc h)
  get_elem?-length (x ∷ xs) zero a h e = absurd (omega (arith, e))
  get_elem?-length (x ∷ xs) (suc i) a h e = get_elem?-length xs i a h (omega (arith, e))

  pub length-append : (xs ys : List A) → length (xs ++ ys) ≡ length xs + length ys
  length-append [] ys = omega arith
  length-append (x ∷ xs) ys = omega (arith, length-append xs ys)

  pub drop-append : (xs ys : List A) → drop (length xs) (xs ++ ys) ≡ ys
  drop-append [] ys = refl
  drop-append (x ∷ xs) ys = drop-append xs ys

abbrev pub is_empty {ℓ} : {A : Type ℓ} → List A → Bool
is_empty [] = true
is_empty (x ∷ xs) = false

-- `==` of two strings.
abbrev pub bytes_eq : Bytes → Bytes → Bool
bytes_eq [] [] = true
bytes_eq [] (y ∷ ys) = false
bytes_eq (x ∷ xs) [] = false
bytes_eq (x ∷ xs) (y ∷ ys) = x == y && bytes_eq xs ys

pub bytes_eq_refl : (xs : Bytes) → bytes_eq xs xs ≡ true
bytes_eq_refl [] = refl
bytes_eq_refl (x ∷ xs) = ground (arith, bytes_eq_refl xs)

pub eq_of_bytes_eq : (xs ys : Bytes) → bytes_eq xs ys ≡ true → xs ≡ ys
eq_of_bytes_eq [] [] h = refl
eq_of_bytes_eq [] (y ∷ ys) h = ground arith
eq_of_bytes_eq (x ∷ xs) [] h = ground arith
eq_of_bytes_eq (x ∷ xs) (y ∷ ys) h = ground (arith, eq_of_bytes_eq xs ys)

pub ne_of_bytes_eq : (xs ys : Bytes) → bytes_eq xs ys ≡ false → xs ≢ ys
ne_of_bytes_eq xs ys h e = absurd (cc (bytes_eq_refl ys, rw e at h))
