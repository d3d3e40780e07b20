-- ===== src/Base/Monad.antt =====
-- How a call ends, and the calls that keep a state. The program reports an error by the return
-- code -1; `abort()` ends the process; `undefined` is undefined behaviour, such as a read past the
-- end of a string; `diverge` is a loop that does not end. What was written before any of these
-- stays written, so the state comes back in each case.
use mathlib.Core.Bool.{Bool}
use mathlib.Core.Option.{Option, none, some}
use mathlib.Core.Path.{◌≡◌, refl}
use mathlib.Core.Logic.{◌⊎◌, inl, inr}
use jn_server_cc.Base.Tests.{if◌then◌else◌}

pub data Stop : Type 0 where
  error abort undefined diverge : Stop

pub data Outcome (A : Type 0) : Type 0 where
  done : A → Outcome A
  fail : Stop → Outcome A

abbrev pub Action : Type 0 → Type 0 → Type 0
Action S A = S → Outcome A × S

module _ {S A : Type 0} where
  pub pure : A → Action S A
  pure a s = (done a, s)

  pub stop : Stop → Action S A
  stop e s = (fail e, s)

  pub gets : (S → A) → Action S A
  gets f s = (done (f s), s)

  abbrev code_ignored : Outcome A × S → Outcome (Option A) × S
  code_ignored (done a, s) = (done (some a), s)
  code_ignored (fail error, s) = (done none, s)
  code_ignored (fail abort, s) = (fail abort, s)
  code_ignored (fail undefined, s) = (fail undefined, s)
  code_ignored (fail diverge, s) = (fail diverge, s)

  -- A call whose return code is ignored; the result is `none` where it was -1.
  pub ignore_code : Action S A → Action S (Option A)
  ignore_code m s = code_ignored (m s)

module _ {S : Type 0} where
  pub modify : (S → S) → Action S (Unit {0})
  modify f s = (done tt, f s)

  -- `if (b) ...` that stops the call.
  pub stop_if : Bool → Stop → Action S (Unit {0})
  stop_if b e s = (if b then fail e else done tt, s)

  abbrev pub when : Bool → Action S (Unit {0}) → Action S (Unit {0})
  when b m = if b then m else pure tt

module _ {S A B : Type 0} where
  abbrev continue : Outcome A → (A → Action S B) → Action S B
  continue (done a) f s = f a s
  continue (fail e) f s = (fail e, s)

  -- Opening this opens the other calls of this file too.
  infixl 5 ◌>>=◌ ◌>>◌
  unfoldable pub ◌>>=◌ : Action S A → (A → Action S B) → Action S B
  unfolding pure stop gets modify stop_if ignore_code
  ◌>>=◌ m f s = let (r, s') = m s in continue r f s'

  abbrev pub ◌>>◌ : Action S A → Action S B → Action S B
  m >> k = m >>= λ _. k

pub Outcome-cases :
    {A : Type 0} (r : Outcome A) → ((a : A) × (r ≡ done a)) ⊎ ((e : Stop) × (r ≡ fail e))
Outcome-cases (done a) = inl (a, refl)
Outcome-cases (fail e) = inr (e, refl)

-- Inversion of a sequence that returns.
pub >>=-eq-done :
    {S A B : Type 0} (m : Action S A) (f : A → Action S B) (s : S) (b : B)
    → ((m >>= f) s).0 ≡ done b
    → (a : A) × ((m s).0 ≡ done a) × ((f a (m s).1).0 ≡ done b) × ((m >>= f) s ≡ f a (m s).1)
unfolding ◌>>=◌
>>=-eq-done m f s b h = elim (Outcome-cases (m s).0) [
  | inl (a, e) ↦ (a, e, rw e at h, rw e)
  | inr (x, e) ↦ absurd (cc (rw e at h))
]

-- A step that returns is followed by the rest.
pub >>=-of_done :
    {S A B : Type 0} (m : Action S A) (f : A → Action S B) (s s' : S) (a : A)
    → m s ≡ (done a, s')
    → (m >>= f) s ≡ f a s'
unfolding ◌>>=◌
>>=-of_done m f s s' a h = rw h

pub done-injective : {A : Type 0} {a b : A} → done a ≡ done b → a ≡ b
done-injective h = cc h
