-- ===== src/Prelude/Filters.antt =====
-- Tests over lists that keep or find elements, under the library's names.
use mathlib.Core.Path.{◌≡◌, refl}
use mathlib.Core.Logic.{inl, inr}
use mathlib.Core.Bool.{Bool, true, false, ◌&&◌}
use mathlib.Core.Option.{Option, none, some}
use mathlib.Core.List.{List, [], ◌∷◌, ◌++◌}
use native.Mathlib.Omega.{arith}
use vivarium.Prelude.Tests.{if◌then◌else◌, Bool-cases}
use vivarium.Prelude.Lists.{any, All}

module _ {ℓ} {A : Type ℓ} where
  abbrev pub filter : (A → Bool) → List A → List A
  filter p [] = []
  filter p (x ∷ xs) = let rest = filter p xs in if p x then x ∷ rest else rest

  -- The first element that passes the test.
  abbrev pub find : (A → Bool) → List A → Option A
  find p [] = none
  find p (x ∷ xs) = let rest = find p xs in if p x then some x else rest

  abbrev pub reverse : List A → List A
  reverse [] = []
  reverse (x ∷ xs) = reverse xs ++ (x ∷ [])

  pub find-eq-none : (p : A → Bool) (xs : List A) → find p xs ≡ none → any p xs ≡ false
  find-eq-none p [] h = refl
  find-eq-none p (x ∷ xs) h = ground (arith, find-eq-none p xs)

  pub All-filter : (P : A → Type 0) (p : A → Bool) (xs : List A) → All P xs → All P (filter p xs)
  All-filter P p [] h = tt
  All-filter P p (x ∷ xs) h = elim (Bool-cases (p x)) [
    | inl e ↦ rw e (h.0, All-filter P p xs h.1)
    | inr e ↦ rw e (All-filter P p xs h.1)
  ]

  pub any-filter : (q p : A → Bool) (xs : List A) → any q (filter p xs) ≡ any (λ x. p x && q x) xs
  any-filter q p [] = refl
  any-filter q p (x ∷ xs) = ground (arith, any-filter q p xs)

  pub All-filter-test : (p : A → Bool) (xs : List A) → All (λ x. p x ≡ true) (filter p xs)
  All-filter-test p [] = tt
  All-filter-test p (x ∷ xs) = elim (Bool-cases (p x)) [
    | inl e ↦ rw e (e, All-filter-test p xs)
    | inr e ↦ rw e (All-filter-test p xs)
  ]
