-- ===== src/Text/RoundTrip.antt =====
-- What `operator<<` prints, `strtol` reads back.
use jn_server_cc.Base.{
  ℕ, zero, suc, ◌+◌, ◌-◌, ◌/◌, ◌%◌, ◌^◌, ◌≤◌, ◌<◌, ◌≡◌, refl, Bool, true, false, ◌&&◌, [], ◌∷◌,
  ◌++◌, arith, Bytes, length, replicate, ◌≢◌, ◌∙◌, not, ◌==◌, ℤ, pos, negsuc,
}
use mathlib.Core.Path.{subst}
use jn_server_cc.Text.{
  emit, atoi, to_int, print_ℕ, print_long, print_padded, is_digit, read_digits, long_max, strtol,
  line_of,
}

read_digits-emit :
    (f n : ℕ) (out : Bytes) → n < f → read_digits 0 (emit f n out) ≡ read_digits n out
unfolding emit read_digits
read_digits-emit zero n out h = absurd (omega arith)
read_digits-emit (suc f) n out h =
    ground (arith, read_digits-emit f (n / 10) ((b'0' + n % 10) ∷ out))

-- Every printed number begins with a digit, so it is not empty and has no sign or space in front.
abbrev pub Starts : Bytes → Type 0
Starts [] = ⊥
Starts (c ∷ s) = is_digit c ≡ true

emit-Starts : (f n : ℕ) (out : Bytes) → n < f → Starts (emit f n out)
unfolding emit
emit-Starts zero n out h = absurd (omega arith)
emit-Starts (suc f) n out h = ground (arith, emit-Starts f (n / 10) ((b'0' + n % 10) ∷ out))

-- A number that begins with a digit is read as its digits.
strtol_start :
    (s : Bytes) (n : ℕ) (rest : Bytes)
    → Starts s
    → read_digits 0 s ≡ (n, rest)
    → n ≤ long_max
    → strtol s ≡ (pos n, rest)
unfolding strtol
strtol_start [] n rest b e h = absurd b
strtol_start (c ∷ s) n rest b e h = ground arith

-- A minus sign and digits are read as the negative number.
strtol_minus :
    (s : Bytes) (n : ℕ) (rest : Bytes)
    → Starts s
    → read_digits 0 s ≡ (suc n, rest)
    → n ≤ long_max
    → strtol (b'-' ∷ s) ≡ (negsuc n, rest)
unfolding strtol
strtol_minus [] n rest b e h = absurd b
strtol_minus (c ∷ s) n rest b e h = ground arith

-- The values of a `long`.
abbrev pub IsLong : ℤ → Type 0
IsLong (pos n) = n ≤ long_max
IsLong (negsuc n) = n ≤ long_max

pub print_ℕ-digits : (n : ℕ) → read_digits 0 (print_ℕ n) ≡ (n, [])
unfolding print_ℕ read_digits
print_ℕ-digits n = read_digits-emit (suc n) n [] (omega arith)

pub print_ℕ-Starts : (n : ℕ) → Starts (print_ℕ n)
unfolding print_ℕ
print_ℕ-Starts n = emit-Starts (suc n) n [] (omega arith)

-- Reading back what `operator<<` has printed of any `long` gives the value and leaves no text.
pub strtol-print_long : (z : ℤ) → IsLong z → strtol (print_long z) ≡ (z, [])
unfolding print_long
strtol-print_long (pos n) h = strtol_start (print_ℕ n) n [] (print_ℕ-Starts n) (print_ℕ-digits n) h
strtol-print_long (negsuc n) h =
    strtol_minus (print_ℕ (suc n)) n [] (print_ℕ-Starts (suc n)) (print_ℕ-digits (suc n)) h

read_digits-zeros : (k : ℕ) (s : Bytes) → read_digits 0 (replicate k b'0' ++ s) ≡ read_digits 0 s
unfolding read_digits
read_digits-zeros zero s = refl
read_digits-zeros (suc k) s = read_digits-zeros k s

zeros-Starts : (k : ℕ) (s : Bytes) → Starts s → Starts (replicate k b'0' ++ s)
zeros-Starts zero s h = h
zeros-Starts (suc k) s h = refl

-- So does the text of 19 digits or more that the file names hold, for a value that is not negative.
pub strtol-print_padded : (n : ℕ) → n ≤ long_max → strtol (print_padded (pos n)) ≡ (pos n, [])
unfolding print_padded
strtol-print_padded n h =
    strtol_start _ n [] (zeros-Starts _ (print_ℕ n) (print_ℕ-Starts n))
      (read_digits-zeros _ (print_ℕ n) ∙ print_ℕ-digits n) h

-- A text of digits alone, at least one.
abbrev pub all_digits : Bytes → Bool
all_digits [] = true
all_digits (c ∷ s) = is_digit c && all_digits s

emit-all_digits :
    (f n : ℕ) (out : Bytes) → n < f → all_digits out ≡ true → all_digits (emit f n out) ≡ true
unfolding emit
emit-all_digits zero n out h d = absurd (omega arith)
emit-all_digits (suc f) n out h d =
    ground (arith, emit-all_digits f (n / 10) ((b'0' + n % 10) ∷ out))

zeros-all_digits :
    (k : ℕ) (s : Bytes) → all_digits s ≡ true → all_digits (replicate k b'0' ++ s) ≡ true
zeros-all_digits zero s h = h
zeros-all_digits (suc k) s h = zeros-all_digits k s h

pub print_padded-all_digits : (n : ℕ) → all_digits (print_padded (pos n)) ≡ true
unfolding print_padded
print_padded-all_digits n =
    zeros-all_digits (19 - length (print_ℕ n)) (print_ℕ n)
      (emit-all_digits (suc n) n [] (omega arith) refl)

pub print_padded_nonempty : (n : ℕ) → print_padded (pos n) ≢ []
unfolding print_padded
print_padded_nonempty n e = absurd (subst Starts e (zeros-Starts _ (print_ℕ n) (print_ℕ-Starts n)))

-- A line with no newline in it comes back whole.
abbrev pub no_newline : Bytes → Bool
no_newline [] = true
no_newline (c ∷ s) = not (c == 10) && no_newline s

pub line_of-newline : (s : Bytes) → no_newline s ≡ true → line_of (s ++ 10 ∷ []) ≡ (s, true)
unfolding line_of
line_of-newline [] h = refl
line_of-newline (c ∷ s) h = ground (arith, line_of-newline s)

pub line_of_end : (s : Bytes) → no_newline s ≡ true → line_of s ≡ (s, false)
unfolding line_of
line_of_end [] h = refl
line_of_end (c ∷ s) h = ground (arith, line_of_end s)

pub all_digits-no_newline : (s : Bytes) → all_digits s ≡ true → no_newline s ≡ true
all_digits-no_newline [] h = refl
all_digits-no_newline (c ∷ s) h = ground (arith, all_digits-no_newline s)

zeros-no_newline :
    (k : ℕ) (s : Bytes) → no_newline s ≡ true → no_newline (replicate k b'0' ++ s) ≡ true
zeros-no_newline zero s h = h
zeros-no_newline (suc k) s h = zeros-no_newline k s h

pub print_long-no_newline : (z : ℤ) → no_newline (print_long z) ≡ true
unfolding print_long
print_long-no_newline (pos n) =
    all_digits-no_newline (print_ℕ n) (emit-all_digits (suc n) n [] (omega arith) refl)
print_long-no_newline (negsuc n) =
    all_digits-no_newline (print_ℕ (suc n))
      (emit-all_digits (suc (suc n)) (suc n) [] (omega arith) refl)

pub print_padded-no_newline : (z : ℤ) → no_newline (print_padded z) ≡ true
unfolding print_padded
print_padded-no_newline z =
    zeros-no_newline (19 - length (print_long z)) (print_long z) (print_long-no_newline z)

pub print_ℕ-all_digits : (n : ℕ) → all_digits (print_ℕ n) ≡ true
unfolding print_ℕ
print_ℕ-all_digits n = emit-all_digits (suc n) n [] (omega arith) refl

pub print_long_nonempty : (z : ℤ) → print_long z ≢ []
unfolding print_long
print_long_nonempty (pos n) e = absurd (subst Starts e (print_ℕ-Starts n))
print_long_nonempty (negsuc n) e = absurd (cc e)

-- The values of an `int`.
abbrev pub IsInt : ℤ → Type 0
IsInt (pos n) = n < 2 ^ 31
IsInt (negsuc n) = n < 2 ^ 31

int_of_long : (z : ℤ) → IsInt z → to_int z ≡ z
int_of_long (pos n) h = ground arith
int_of_long (negsuc n) h = ground arith

IsLong-IsInt : (z : ℤ) → IsInt z → IsLong z
IsLong-IsInt (pos n) h = omega arith
IsLong-IsInt (negsuc n) h = omega arith

pub atoi-print_long : (z : ℤ) → IsInt z → atoi (print_long z) ≡ z
unfolding atoi
atoi-print_long z h = rw (strtol-print_long z (IsLong-IsInt z h)) (int_of_long z h)

-- A text with no colon in it.
abbrev pub no_colon : Bytes → Bool
no_colon [] = true
no_colon (c ∷ s) = not (c == b':') && no_colon s
