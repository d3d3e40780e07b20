-- ===== src/Text.antt =====
-- The parts of the C++ library that print and read numbers and lines: `operator<<` of a `long`
-- with and without `setfill('0') << setw(19)`, `strtol` and the two `getline`s.
pub mod RoundTrip
use jn_server_cc.Base.{
  ℕ, zero, suc, ◌+◌, ◌-◌, ◌*◌, ◌/◌, ◌%◌, ◌^◌, Bool, true, false, ◌&&◌, ◌||◌, List, [], ◌∷◌, ◌++◌,
  Option, none, some, Bytes, length, replicate, ltb, leb, ◌==◌, if◌then◌else◌, ℤ, pos, negsuc,
}

-- One round for each digit; `suc n` rounds are enough for `n`.
unfoldable pub emit : ℕ → ℕ → Bytes → Bytes
emit zero n out = out
emit (suc rounds) n out =
    let rest = emit rounds (n / 10) ((b'0' + n % 10) ∷ out) in
    if ltb n 10 then (b'0' + n) ∷ out else rest

unfoldable pub print_ℕ : ℕ → Bytes
unfolding emit
print_ℕ n = emit (suc n) n []

-- `ostream << long`
unfoldable pub print_long : ℤ → Bytes
unfolding print_ℕ
print_long (pos n) = print_ℕ n
print_long (negsuc n) = b'-' ∷ print_ℕ (suc n)

-- `setfill('0') << setw(19) << long`: the fill goes before the sign.
unfoldable pub print_padded : ℤ → Bytes
unfolding print_long
print_padded z = let s = print_long z in replicate (19 - length s) b'0' ++ s

abbrev pub is_digit : ℕ → Bool
is_digit c = leb b'0' c && leb c b'9'

abbrev pub is_space : ℕ → Bool
is_space c = (c == 32) || (leb 9 c && leb c 13)

skip_space : Bytes → Bytes
skip_space [] = []
skip_space (c ∷ s) = if is_space c then skip_space s else c ∷ s

-- The value of the digits at the front, and what follows them.
unfoldable pub read_digits : ℕ → Bytes → ℕ × Bytes
read_digits n [] = (n, [])
read_digits n (c ∷ s) = if is_digit c then read_digits (n * 10 + (c - b'0')) s else (n, c ∷ s)

abbrev pub long_max : ℕ
long_max = 2 ^ 63 - 1

-- Whether a number fits a long.
unfoldable pub is_long : ℤ → Bool
is_long (pos n) = leb n long_max
is_long (negsuc n) = leb n long_max

-- Out of range, `strtol` gives `LONG_MAX` or `LONG_MIN`.
abbrev saturate : Bool → ℕ → ℤ
saturate false n = if ltb long_max n then pos long_max else pos n
saturate true n =
    if n == 0 then pos 0 else if ltb (long_max + 1) n then negsuc long_max else negsuc (n - 1)

-- With no digit there is no conversion: the value is 0 and `end` is the start.
strtol_digits : Bytes → Bool → Bytes → ℤ × Bytes
unfolding read_digits
strtol_digits whole negative [] = (pos 0, whole)
strtol_digits whole negative (c ∷ s) =
    if is_digit c
    then (let (n, rest) = read_digits 0 (c ∷ s) in (saturate negative n, rest))
    else (pos 0, whole)

strtol_sign : Bytes → Bytes → ℤ × Bytes
unfolding strtol_digits
strtol_sign whole [] = (pos 0, whole)
strtol_sign whole (c ∷ s) =
    if c == b'-'
    then strtol_digits whole true s
    else if c == b'+'
    then strtol_digits whole false s
    else strtol_digits whole false (c ∷ s)

-- `strtol(s, &end, 10)`: the value, and the text from `end` on.
unfoldable pub strtol : Bytes → ℤ × Bytes
unfolding skip_space strtol_sign
strtol s = strtol_sign s (skip_space s)

strtoul_value : Bool → ℕ × Bytes → ℕ
strtoul_value negative (n, rest) =
    if ltb (2 ^ 64 - 1) n then 2 ^ 64 - 1 else if negative then (2 ^ 64 - n) % 2 ^ 64 else n

strtoul_sign : Bytes → ℕ
unfolding read_digits strtoul_value
strtoul_sign [] = 0
strtoul_sign (c ∷ s) =
    if c == b'-'
    then strtoul_value true (read_digits 0 s)
    else if c == b'+'
    then strtoul_value false (read_digits 0 s)
    else strtoul_value false (read_digits 0 (c ∷ s))

-- The value of `strtoul(s, 0, 10)`; a minus sign negates it as an unsigned number.
unfoldable pub strtoul : Bytes → ℕ
unfolding skip_space strtoul_sign
strtoul s = strtoul_sign (skip_space s)

-- The text up to the first newline, and whether there is one.
unfoldable pub line_of : Bytes → Bytes × Bool
line_of [] = ([], false)
line_of (c ∷ s) = let (l, found) = line_of s in if c == 10 then ([], true) else (c ∷ l, found)

-- `getline(istream, string)`: it fails where nothing can be read.
unfoldable pub getline : Bytes → Option Bytes
unfolding line_of
getline [] = none
getline (c ∷ s) = some ((line_of (c ∷ s)).0)

-- `istream.getline(buffer, 128)` followed by `good()`: the line, where a newline ends it within the
-- buffer. Where the text ends first the end-of-file bit is set, and the stream is not good.
unfoldable pub getline_good : Bytes → Option Bytes
unfolding line_of
getline_good s = let (l, found) = line_of s in if found && ltb (length l) 128 then some l else none

-- A `char` array as a C string: it ends at the first zero byte.
abbrev pub c_string : Bytes → Bytes
c_string [] = []
c_string (c ∷ s) = if c == 0 then [] else c ∷ c_string s

-- A `long` as an `int`: the low 32 bits.
abbrev pub int_of : ℕ → ℤ
int_of n = if ltb n (2 ^ 31) then pos n else negsuc (2 ^ 32 - 1 - n)

abbrev pub to_int : ℤ → ℤ
to_int (pos n) = int_of (n % 2 ^ 32)
to_int (negsuc n) = int_of (2 ^ 32 - 1 - n % 2 ^ 32)

unfoldable pub atoi : Bytes → ℤ
unfolding strtol
atoi s = to_int ((strtol s).0)
