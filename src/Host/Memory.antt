-- ===== src/Host/Memory.antt =====
-- A host whose files are kept in memory: every call succeeds where the file is there, every
-- directory is there, and a URL is the path of a file. It shows that the laws can hold, and it runs tests.
use jn_server_cc.Base.{
  ℕ, ◌+◌, Bool, true, false, ◌&&◌, ◌||◌, not, List, [], ◌∷◌, ◌++◌, Option, none, some, Bytes, codes,
  bytes_eq, is_empty, length, take, drop, ◌==◌, if◌then◌else◌, pos,
}
use jn_server_cc.Text.{is_digit}
use jn_server_cc.Messages.{PaxosData}
use jn_server_cc.Host.{Host}

-- The files, each with its path; a handle is the path.
abbrev pub Files : Type 0
Files = List (Bytes × Bytes)

abbrev pub find : Bytes → Files → Option Bytes
find p [] = none
find p ((q, s) ∷ d) = if bytes_eq q p then some s else find p d

abbrev pub put : Bytes → Bytes → Files → Files
put p s [] = (p, s) ∷ []
put p s ((q, t) ∷ d) = if bytes_eq q p then (q, s) ∷ d else (q, t) ∷ put p s d

abbrev pub delete : Bytes → Files → Files
delete p [] = []
delete p ((q, t) ∷ d) = let rest = delete p d in if bytes_eq q p then rest else (q, t) ∷ rest

abbrev pub is_file : Bytes → Files → Bool
is_file p d = elim (find p d) [ none ↦ false | some _ ↦ true ]

-- The bytes from an offset on are replaced.
abbrev pub overwrite : ℕ → Bytes → Bytes → Bytes
overwrite n s t = take n t ++ (s ++ drop (n + length s) t)

abbrev pub write : Bytes → ℕ → Bytes → Files → Bool × Files
write p n s d = elim (find p d) [ none ↦ (false, d) | some t ↦ (true, put p (overwrite n s t) d) ]

abbrev pub move : Bytes → Bytes → Files → Bool × Files
move a b d = elim (find a d) [ none ↦ (false, d) | some s ↦ (true, put b s (delete a d)) ]

-- The name behind a directory and a slash, if nothing lies deeper.
abbrev name_in : Bytes → Bytes → Option Bytes
name_in [] [] = none
name_in [] (c ∷ p) = if c == b'/' then some p else none
name_in (x ∷ dir) [] = none
name_in (x ∷ dir) (c ∷ p) = if x == c then name_in dir p else none

abbrev is_name : Bytes → Bool
is_name [] = true
is_name (c ∷ s) = not (c == b'/') && is_name s

abbrev pub names : Bytes → Files → List Bytes
names dir [] = []
names dir ((p, s) ∷ d) =
    let rest = names dir d in
    elim (name_in dir p) [ none ↦ rest | some n ↦ if is_name n then n ∷ rest else rest ]

-- The text behind a prefix.
abbrev after : Bytes → Bytes → Option Bytes
after [] s = some s
after (x ∷ xs) [] = none
after (x ∷ xs) (c ∷ s) = if x == c then after xs s else none

-- One or more digits, and what follows them.
abbrev pub digits : Bytes → Bytes × Bytes
digits [] = ([], [])
digits (c ∷ s) = let (a, rest) = digits s in if is_digit c then (c ∷ a, rest) else ([], c ∷ s)

abbrev second_number : Bytes → Bytes → Option (Bytes × Bytes)
second_number a s =
    let (b, rest) = digits s in if is_empty b || not (is_empty rest) then none else some (a, b)

-- `edits_`, digits, a dash, digits.
abbrev pub match_finalized : Bytes → Option (Bytes × Bytes)
match_finalized name = elim (after (codes "edits_") name) [
  | none ↦ none
  | some s ↦
      let (a, rest) = digits s in
      if is_empty a
      then none
      else elim (after (codes "-") rest) [ none ↦ none | some t ↦ second_number a t ]
]

abbrev pub match_in_progress : Bytes → Option Bytes
match_in_progress name = elim (after (codes "edits_inprogress_") name) [
  | none ↦ none
  | some s ↦ let (a, rest) = digits s in if is_empty a || not (is_empty rest) then none else some a
]

abbrev flag : Bool → ℕ
flag true = 1
flag false = 0

abbrev pub serialize : PaxosData → Option Bytes
serialize p = some (
    p.segment_state.start_txid
    ∷ p.segment_state.end_txid
    ∷ flag p.segment_state.is_in_progress
    ∷ p.accepted_in_epoch
    ∷ [])

abbrev pub parse : Bytes → Option PaxosData
parse (s ∷ e ∷ i ∷ a ∷ []) = some (record {
  segment_state = record { start_txid = s; end_txid = e; is_in_progress = i == 1 };
  accepted_in_epoch = a;
})
parse _ = none

abbrev line : Bytes → Bytes
line [] = []
line (c ∷ s) = let rest = line s in if c == 10 then [] else c ∷ rest

abbrev pub property : Bytes → Bytes → Bytes
property [] key = []
property (c ∷ s) key =
    let rest = property s key in
    elim (after (key ++ codes "=") (c ∷ s)) [ none ↦ rest | some v ↦ line v ]

abbrev starts_with_slash : Bytes → Bool
starts_with_slash [] = false
starts_with_slash (c ∷ p) = c == b'/'

instance abbrev pub memory : Host
memory = record {
  Disk = Files;
  Handle = Bytes;
  read_file = find;
  open_out = λ p d. (some p, put p [] d);
  write_at = write;
  close_out = λ p d. d;
  is_regular = λ p d. some (is_file p d);
  is_directory = λ p d. some true;
  exists = λ p d. some true;
  rename = move;
  remove = λ p d. (true, delete p d);
  remove_all = λ p d. (true, []);
  create_directories = λ p d. (some false, d);
  has_root_directory = starts_with_slash;
  regular_files = λ p d. some (names p d);
  open_lock = λ p d. (pos 3, d);
  set_lock = λ fd d. (false, d);
  close_lock = λ fd d. d;
  errno = λ d. pos 0;
  match_finalized = match_finalized;
  match_in_progress = match_in_progress;
  serialize = serialize;
  parse = parse;
  fetch = λ url d. elim (find url d) [ none ↦ ([], none, d) | some s ↦ (s, some 200, d) ];
  property = property;
}
