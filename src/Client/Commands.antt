-- ===== src/Client/Commands.antt =====
-- Which commands the client performs, of what is typed.
use mathlib.Core.Path.{fun_ext}
use jn_server_cc.Base.{
  ℕ, ◌==◌, ◌≡◌, ◌≢◌, ◌⊎◌, refl, sym, ap, ◌∙◌, [], ◌∷◌, ◌++◌, none, some, Bytes, if◌then◌else◌,
  Bool-cases, inl, inr, arith, Outcome-cases, Action, pure, ◌>>=◌, ◌>>◌,
}
use jn_server_cc.Text.{is_space}
use jn_server_cc.Client.{Session, Ice, perform, prompt, loop}

-- What is typed, without the white space.
abbrev pub typed : Bytes → Bytes
typed [] = []
typed (b ∷ bs) = if is_space b then typed bs else b ∷ typed bs

-- No command ends the loop.
abbrev pub GoesOn : Bytes → Type 0
GoesOn [] = Unit {0}
GoesOn (c ∷ cs) = (c ≢ b'x') × GoesOn cs

-- The commands of the loop behind a first one: up to an `x`, and else the last one once more.
abbrev commands : ℕ → Bytes → Bytes
commands c [] = c ∷ []
commands c (d ∷ ds) = d ∷ (if d == b'x' then [] else commands d ds)

commands_ended :
    (c : ℕ) (cs rest : Bytes) → GoesOn cs → commands c (cs ++ b'x' ∷ rest) ≡ cs ++ b'x' ∷ []
commands_ended c [] rest h = refl
commands_ended c (d ∷ cs) rest (ne, h) = ground (arith, commands_ended d cs rest h)

commands_repeated :
    (c last : ℕ) (cs : Bytes)
    → GoesOn (cs ++ last ∷ [])
    → commands c (cs ++ last ∷ []) ≡ cs ++ last ∷ last ∷ []
commands_repeated c last [] (ne, h) = ground arith
commands_repeated c last (d ∷ cs) (ne, h) = ground (arith, commands_repeated d last cs h)

module _ {S : Type 0} (ice : Ice S) where
  -- Commands one after another, with a prompt between two of them.
  abbrev pub perform_all : Bytes → Action (Session S) (Unit {0})
  perform_all [] = pure tt
  perform_all (c ∷ []) = perform ice c
  perform_all (c ∷ d ∷ cs) = perform ice c >> (prompt >> perform_all (d ∷ cs))

  perform_all-commands :
      (b c : ℕ) (ds : Bytes)
      → perform_all (b ∷ commands c ds) ≡ (perform ice b >> (prompt >> perform_all (commands c ds)))
  perform_all-commands b c [] = refl
  perform_all-commands b c (d ∷ ds) = refl

  after_nothing : (m : Action (Session S) (Unit {0})) → (m >>= λ _. pure tt) ≡ m
  unfolding ◌>>=◌
  after_nothing m = fun_ext (λ s. elim (Outcome-cases (m s).0) [
    | inl (a, e) ↦ ground (arith, e)
    | inr (x, e) ↦ ground (arith, e)
  ])

  loop-commands : (bs : Bytes) (c : ℕ) → loop ice bs (some c) ≡ perform_all (commands c (typed bs))
  unfolding loop
  loop-commands [] c = refl
  loop-commands (b ∷ bs) c = elim (Bool-cases (is_space b)) [
    | inl e ↦ rw (e, loop) (loop-commands bs c)
    | inr e ↦ elim (Bool-cases (b == b'x')) [
      | inl e' ↦ rw (e, loop, e') (after_nothing (perform ice b))
      | inr e' ↦ rw (e, loop, e', perform_all-commands b b (typed bs), loop-commands bs b) refl
    ]
  ]

  loop-typed : (bs : Bytes) → typed bs ≢ [] → loop ice bs none ≡ perform_all (commands 0 (typed bs))
  unfolding loop
  loop-typed [] h = absurd (h refl)
  loop-typed (b ∷ bs) h = elim (Bool-cases (is_space b)) [
    | inl e ↦ rw (e, loop) (loop-typed bs (rw e at h))
    | inr e ↦ elim (Bool-cases (b == b'x')) [
      | inl e' ↦ rw (e, loop, e') (after_nothing (perform ice b))
      | inr e' ↦ rw (e, loop, e', perform_all-commands b b (typed bs), loop-commands bs b) refl
    ]
  ]

  not_nothing : (cs : Bytes) (c : ℕ) (rest : Bytes) → cs ++ c ∷ rest ≢ []
  not_nothing [] c rest h = cc h
  not_nothing (d ∷ cs) c rest h = cc h

  goes_on : (cs : Bytes) (c : ℕ) → GoesOn cs → c ≢ b'x' → GoesOn (cs ++ c ∷ [])
  goes_on [] c h ne = (ne, tt)
  goes_on (d ∷ cs) c (ne', h) ne = (ne', goes_on cs c h ne)

  -- The loop of the client performs what is typed, without the white space, up to and including
  -- the first x; where no x is typed, it performs all of it and then the last command once more.
  pub loop-perform_all :
      (bs cs : Bytes) (c : ℕ) (rest : Bytes)
      → GoesOn cs
      → typed bs ≡ cs ++ c ∷ rest
      → (c ≡ b'x') ⊎ ((c ≢ b'x') × (rest ≡ []))
      → loop ice bs none ≡ perform_all (cs ++ c ∷ (if c == b'x' then [] else c ∷ []))
  loop-perform_all bs cs c rest h e (inl x) =
      loop-typed bs (λ n. not_nothing cs c rest (sym e ∙ n))
      ∙ ap perform_all (ap (commands 0) (rw x at e) ∙ (commands_ended 0 cs rest h ∙ rw x refl))
  loop-perform_all bs cs c rest h e (inr (ne, last)) =
      loop-typed bs (λ n. not_nothing cs c rest (sym e ∙ n))
      ∙ ap perform_all (
          ap (commands 0) (rw last at e)
          ∙ (commands_repeated 0 c cs (goes_on cs c h ne) ∙ ground arith))
