-- ===== src/Common/Effects.antt =====
-- Results, and calls that change a state and may raise. What was written before a raise stays
-- written, so the state comes back in both cases.
use mathlib.Core.Path.{◌≡◌, refl}
use mathlib.Core.Logic.{◌⊎◌, inl, inr}
use mathlib.Core.Bool.{Bool}
use mathlib.Core.Option.{Option, none, some}
use simple_ai_agent.Common.Tests.{if◌then◌else◌}

pub data Result {ℓ κ} (E : Type ℓ) (A : Type κ) : Type (ℓ ⊔ κ) where
  ok : A → Result E A
  err : E → Result E A

pub Result-cases {ℓ κ} :
    {E : Type ℓ} {A : Type κ} (r : Result E A) → ((a : A) × (r ≡ ok a)) ⊎ ((e : E) × (r ≡ err e))
Result-cases (ok a) = inl (a, refl)
Result-cases (err e) = inr (e, refl)

abbrev pub Action : Type 0 → Type 0 → Type 0 → Type 0
Action S E A = S → Result E A × S

module _ {S E A : Type 0} where
  abbrev pub pure : A → Action S E A
  pure a s = (ok a, s)

  abbrev pub raise : E → Action S E A
  raise e s = (err e, s)

  abbrev pub gets : (S → A) → Action S E A
  gets f s = (ok (f s), s)

  abbrev pub or_raise : Option A → E → Action S E A
  or_raise none e = raise e
  or_raise (some a) e = pure a

infixl 5 ◌>>=◌ ◌>>◌
abbrev pub ◌>>=◌ : {S E A B : Type 0} → Action S E A → (A → Action S E B) → Action S E B
◌>>=◌ m f s = let (r, s') = m s in elim r [ ok a ↦ f a s' | err e ↦ raise e s' ]

abbrev pub ◌>>◌ : {S E A B : Type 0} → Action S E A → Action S E B → Action S E B
m >> k = m >>= λ _. k

abbrev pub raise_if : {S E : Type 0} → Bool → E → Action S E (Unit {0})
raise_if b e s = (if b then err e else ok tt, s)

abbrev pub modify : {S E : Type 0} → (S → S) → Action S E (Unit {0})
modify f s = (ok tt, f s)

-- A call that raises ends the block, and one that does not passes its value and its state on.
module _ {S E A B : Type 0} (m : Action S E A) (f : A → Action S E B) (s : S) {t : S} where
  pub bind_raises : {x : E} → m s ≡ (err x, t) → (m >>= f) s ≡ (err x, t)
  bind_raises h = cc h

  pub bind_passes : {a : A} → m s ≡ (ok a, t) → (m >>= f) s ≡ f a t
  bind_passes h = cc h
