-- ===== src/Common/Lists.antt =====
-- Lists tested by Boolean predicates and measured by native numbers.
use Prim.Native.Nat.{ℕ, suc, ◌+◌}
use mathlib.Core.Path.{◌≡◌, refl}
use mathlib.Core.Bool.{Bool, false, not, ◌||◌}
use mathlib.Core.Option.{Option, none, some}
use mathlib.Core.List.{List, [], ◌∷◌, ◌++◌}
use native.Mathlib.Omega.{arith}
use state.Common.Tests.{if◌then◌else◌}

module _ {ℓ} {A : Type ℓ} where
  abbrev pub length : List A → ℕ
  length [] = 0
  length (x ∷ xs) = suc (length xs)

  abbrev pub any : (A → Bool) → List A → Bool
  any p [] = false
  any p (x ∷ xs) = p x || any p xs

  -- The elements that pass a Boolean test, in their order.
  abbrev pub keep : (A → Bool) → List A → List A
  keep p [] = []
  keep p (x ∷ xs) = if p x then x ∷ keep p xs else keep p xs

  abbrev pub count : (A → Bool) → List A → ℕ
  count p [] = 0
  count p (x ∷ xs) = (if p x then 1 else 0) + count p xs

  abbrev pub first : List A → Option A
  first [] = none
  first (x ∷ xs) = some x

  -- `for (auto &x : xs) body(x)`, on the state that the body changes.
  abbrev pub for_each {κ} : {S : Type κ} → (A → S → S) → List A → S → S
  for_each body [] s = s
  for_each body (x ∷ xs) s = for_each body xs (body x s)

  abbrev pub flat_map {κ} : {B : Type κ} → (A → List B) → List A → List B
  flat_map f [] = []
  flat_map f (x ∷ xs) = f x ++ flat_map f xs

  pub length-append : (xs ys : List A) → length (xs ++ ys) ≡ length xs + length ys
  length-append [] ys = omega arith
  length-append (x ∷ xs) ys = omega (arith, length-append xs ys)

-- `Inserted e xs ys`: `ys` is `xs` with `e` put in at one place.
pub data Inserted {ℓ} {A : Type ℓ} (e : A) : List A → List A → Type ℓ where
  here : {xs : List A} → Inserted e xs (e ∷ xs)
  there : {x : A} {xs ys : List A} → Inserted e xs ys → Inserted e (x ∷ xs) (x ∷ ys)

module _ {ℓ} {A : Type ℓ} (p : A → Bool) where
  pub keep-eq-nil : (xs : List A) → any p xs ≡ false → keep p xs ≡ []
  keep-eq-nil [] h = refl
  keep-eq-nil (x ∷ xs) h = ground (arith, keep-eq-nil xs)

module _ {ℓ} {A : Type ℓ} (p : A → Bool) {e : A} where
  pub count-Inserted :
      {xs ys : List A} → Inserted e xs ys → count p ys ≡ (if p e then 1 else 0) + count p xs
  count-Inserted here = refl
  count-Inserted (there i) = omega (arith, count-Inserted i)

  -- A test that no old element passes keeps at most the new one.
  pub keep-Inserted :
      {xs ys : List A}
      → Inserted e xs ys
      → any p xs ≡ false
      → keep p ys ≡ (if p e then e ∷ [] else [])
  keep-Inserted (here {xs}) h = ground (arith, keep-eq-nil p xs h)
  keep-Inserted (there {xs} i) h = ground (arith, keep-Inserted i, keep-eq-nil p xs)

module _ {ℓ} {A : Type ℓ} (p : A → Bool) where
  pub any-keep-not : (xs : List A) → any p (keep (λ x. not (p x)) xs) ≡ false
  any-keep-not [] = refl
  any-keep-not (x ∷ xs) = ground (arith, any-keep-not xs)
