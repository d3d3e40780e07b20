-- ===== src/Base/Moves.antt =====
-- A call whose state after is related to the one before, with one rule for each way to build a call.
use mathlib.Core.Bool.{Bool, true, false}
use jn_server_cc.Base.Tests.{if◌then◌else◌}
use jn_server_cc.Base.Monad.{
  Stop, error, abort, undefined, diverge, Outcome, done, fail, Action, pure, stop, gets, stop_if,
  ignore_code, ◌>>=◌,
}

pub record Moves {S A : Type 0} (R : S → S → Type 0) (m : Action S A) : Type 0 where
  pub at : (s : S) → R s (m s).1

pub record IsPreorder {S : Type 0} (R : S → S → Type 0) : Type 0 where
  pub same : (s : S) → R s s
  pub chain : (s t u : S) → R s t → R t u → R s u

module _ {S : Type 0} {R : S → S → Type 0} (pre : IsPreorder R) where
  pub Moves-pure : {A : Type 0} (a : A) → Moves R (pure {S = S} a)
  unfolding ◌>>=◌
  Moves-pure a = record { at = pre.same }

  pub Moves-stop : {A : Type 0} (e : Stop) → Moves R (stop {S = S} {A = A} e)
  unfolding ◌>>=◌
  Moves-stop e = record { at = pre.same }

  pub Moves-gets : {A : Type 0} (f : S → A) → Moves R (gets f)
  unfolding ◌>>=◌
  Moves-gets f = record { at = pre.same }

  pub Moves-stop_if : (b : Bool) (e : Stop) → Moves R (stop_if {S = S} b e)
  unfolding ◌>>=◌
  Moves-stop_if b e = record { at = pre.same }

  continued :
      {A B : Type 0} (s t : S) (r : Outcome A) (f : A → Action S B)
      → R s t
      → ((a : A) → Moves R (f a))
      → R s (◌>>=◌ (λ (_ : S). (r, t)) f s).1
  unfolding ◌>>=◌
  continued s t (done a) f h k = pre.chain s t (f a t).1 h ((k a).at t)
  continued s t (fail e) f h k = h

  pub Moves->>= :
      {A B : Type 0} (m : Action S A) (f : A → Action S B)
      → Moves R m
      → ((a : A) → Moves R (f a))
      → Moves R (m >>= f)
  unfolding ◌>>=◌
  Moves->>= m f h k = record { at = λ s. continued s (m s).1 (m s).0 f (h.at s) k }

  pub Moves-if :
      {A : Type 0} (b : Bool) (m n : Action S A)
      → Moves R m
      → Moves R n
      → Moves R (if b then m else n)
  Moves-if true m n h k = h
  Moves-if false m n h k = k

  ignored :
      {A : Type 0} (s t : S) (r : Outcome A) → R s t → R s (ignore_code (λ (_ : S). (r, t)) s).1
  unfolding ◌>>=◌
  ignored s t (done a) h = h
  ignored s t (fail error) h = h
  ignored s t (fail abort) h = h
  ignored s t (fail undefined) h = h
  ignored s t (fail diverge) h = h

  pub Moves-ignore_code : {A : Type 0} (m : Action S A) → Moves R m → Moves R (ignore_code m)
  unfolding ◌>>=◌
  Moves-ignore_code m h = record { at = λ s. ignored s (m s).1 (m s).0 (h.at s) }

pub ruleset moves_rules =
    (Moves-pure, Moves-stop, Moves-gets, Moves-stop_if, Moves->>=, Moves-if, Moves-ignore_code)
