-- ===== src/Base/Leaves.antt =====
-- What holds of the state after a call that returns, when its last steps see to it.
use jn_server_cc.Base.Monad.{done, done-injective, pure, Action, modify, ◌>>=◌, >>=-eq-done}
use mathlib.Core.Path.{◌≡◌, subst}

pub record Leaves {S A : Type 0} (P : S → Type 0) (m : Action S A) : Type 0 where
  pub at : (s : S) (a : A) → (m s).0 ≡ done a → P (m s).1

module _ {S : Type 0} {P : S → Type 0} where
  -- The end of a call decides.
  pub Leaves->>= :
      {A B : Type 0} (m : Action S A) (f : A → Action S B)
      → ((a : A) → Leaves P (f a))
      → Leaves P (m >>= f)
  Leaves->>= m f h = record {
    at = λ s b e. let (a, e1, e2, q) = >>=-eq-done m f s b e in rw q ((h a).at (m s).1 b e2);
  }

  pub Leaves-modify : (g : S → S) → ((s : S) → P (g s)) → Leaves P (modify g)
  unfolding ◌>>=◌
  Leaves-modify g h = record { at = λ s a e. h s }

-- What holds of the result of a call that returns, when its last steps see to it.
pub record Returns {S A : Type 0} (P : A → Type 0) (m : Action S A) : Type 0 where
  pub of : (s : S) (a : A) → (m s).0 ≡ done a → P a

module _ {S A : Type 0} {P : A → Type 0} where
  pub Returns->>= :
      {B : Type 0} (m : Action S B) (f : B → Action S A)
      → ((b : B) → Returns P (f b))
      → Returns P (m >>= f)
  Returns->>= m f h = record {
    of = λ s a e. let (b, e1, e2, q) = >>=-eq-done m f s a e in (h b).of (m s).1 a e2;
  }

  pub Returns-pure : (a : A) → P a → Returns P (pure {S = S} a)
  unfolding ◌>>=◌
  Returns-pure a p = record { of = λ s b e. subst P (done-injective e) p }
