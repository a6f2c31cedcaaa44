-- ===== src/Common/Contracts.antt =====
-- What a call promises: a predicate of its value and state if it returns, and one of its
-- exception and state if it raises.
use mathlib.Core.Path.{◌≡◌, refl}
use mathlib.Core.Bool.{Bool, true, false}
use simple_ai_agent.Common.Effects.{Result, ok, err, Action, raise_if, ◌>>=◌, ◌>>◌}

module _ {S E : Type 0} where
  unfoldable pub Ensures :
      {A : Type 0} → (A → S → Type 0) → (E → S → Type 0) → Result E A × S → Type 0
  Ensures Q R (ok a, t) = Q a t
  Ensures Q R (err e, t) = R e t

  pub Ensures-bind :
      {A B : Type 0} (Q : A → S → Type 0) (R : E → S → Type 0) (Q' : B → S → Type 0)
      (r : Result E A × S) (f : A → Action S E B)
      → Ensures Q R r
      → ((a : A) (t : S) → Q a t → Ensures Q' R (f a t))
      → Ensures Q' R (((λ (s : S). r) >>= f) (r.1))
  unfolding Ensures
  Ensures-bind Q R Q' (ok a, t) f h k = k a t h
  Ensures-bind Q R Q' (err e, t) f h k = h

  pub Ensures-weaken :
      {A : Type 0} (Q Q' : A → S → Type 0) (R R' : E → S → Type 0) (r : Result E A × S)
      → Ensures Q R r
      → ((a : A) (t : S) → Q a t → Q' a t)
      → ((e : E) (t : S) → R e t → R' e t)
      → Ensures Q' R' r
  unfolding Ensures
  Ensures-weaken Q Q' R R' (ok a, t) h k l = k a t h
  Ensures-weaken Q Q' R R' (err e, t) h k l = l e t h

  pub Ensures-guard :
      {B : Type 0} (R : E → S → Type 0) (Q' : B → S → Type 0) (b : Bool) (e : E) (k : Action S E B)
      (s : S)
      → (b ≡ true → R e s)
      → (b ≡ false → Ensures Q' R (k s))
      → Ensures Q' R ((raise_if b e >> k) s)
  unfolding Ensures
  Ensures-guard R Q' true e k s h l = h refl
  Ensures-guard R Q' false e k s h l = l refl
