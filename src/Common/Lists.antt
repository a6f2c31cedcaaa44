-- ===== src/Common/Lists.antt =====
-- Lists measured by native numbers, and tests and predicates over their elements.
use Prim.Native.Nat.{ℕ, suc, ◌+◌, zero}
use Prim.Native.String.{String}
use mathlib.Core.Path.{◌≡◌, refl, sym, ap, ap₂, ◌∙◌}
use mathlib.Core.Bool.{Bool, false, ◌||◌}
use mathlib.Core.List.{List, [], ◌∷◌, ◌++◌}
use native.Mathlib.Omega.{arith}
use text.Mathlib.Text.{◌==◌}

module _ {ℓ} {A : Type ℓ} where
  abbrev pub length : List A → ℕ
  length [] = 0
  length (x ∷ xs) = suc (length xs)

  abbrev pub take : ℕ → List A → List A
  take zero xs = []
  take (suc n) [] = []
  take (suc n) (x ∷ xs) = x ∷ take n xs

  abbrev pub drop : ℕ → List A → List A
  drop zero xs = xs
  drop (suc n) [] = []
  drop (suc n) (x ∷ xs) = drop n xs

  abbrev pub any : (A → Bool) → List A → Bool
  any p [] = false
  any p (x ∷ xs) = p x || any p xs

  abbrev pub All {κ} : (A → Type κ) → List A → Type κ
  All P [] = Unit
  All P (x ∷ xs) = P x × All P xs

  pub length-append : (xs ys : List A) → length (xs ++ ys) ≡ length xs + length ys
  length-append [] ys = omega arith
  length-append (x ∷ xs) ys = omega (arith, length-append xs ys)

pub any-append {ℓ} :
    {A : Type ℓ} (p : A → Bool) (xs ys : List A) → any p (xs ++ ys) ≡ (any p xs || any p ys)
any-append p [] ys = refl
any-append p (x ∷ xs) ys = ground (arith, any-append p xs ys)

-- `name in names` for a collection of texts.
abbrev pub contains : String → List String → Bool
contains k [] = false
contains k (x ∷ xs) = x == k || contains k xs

any-never {ℓ} : {A : Type ℓ} (xs : List A) → any (λ x. false) xs ≡ false
any-never [] = refl
any-never (x ∷ xs) = any-never xs

any-or {ℓ} :
    {A : Type ℓ} (p q : A → Bool) (xs : List A) → any (λ x. p x || q x) xs ≡ (any p xs || any q xs)
any-or p q [] = refl
any-or p q (x ∷ xs) = ground (arith, any-or p q xs)

-- Two searches one inside the other may change places.
pub any-any {ℓ κ} :
    {A : Type ℓ} {B : Type κ} (test : A → B → Bool) (xs : List A) (ys : List B)
    → any (λ x. any (test x) ys) xs ≡ any (λ y. any (λ x. test x y) xs) ys
any-any test [] ys = sym (any-never ys)
any-any test (x ∷ xs) ys =
    ap (λ b. any (test x) ys || b) (any-any test xs ys)
    ∙ sym (any-or (test x) (λ y. any (λ z. test z y) xs) ys)

pub any-cong {ℓ} :
    {A : Type ℓ} (p q : A → Bool) (xs : List A) → ((x : A) → p x ≡ q x) → any p xs ≡ any q xs
any-cong p q [] same = refl
any-cong p q (x ∷ xs) same = ap₂ (λ a b. a || b) (same x) (any-cong p q xs same)

-- What a search did not find is not there.
pub any-skipped {ℓ} :
    {A : Type ℓ} (p : A → Bool) (x : A) (pre post : List A)
    → any p (pre ++ x ∷ post) ≡ false
    → p x ≡ false
any-skipped p x [] post h = ground (arith, h)
any-skipped p x (y ∷ pre) post h = any-skipped p x pre post (ground (arith, h))
