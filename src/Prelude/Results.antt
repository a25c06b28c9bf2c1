-- ===== src/Prelude/Results.antt =====
-- Fallible steps: the source's `Result<A, E>` and `?`.
use mathlib.Core.Path.{◌≡◌, refl}
use mathlib.Core.Bool.{Bool, true, false}
use mathlib.Core.Logic.{◌⊎◌, inl, inr}
use mathlib.Core.Option.{Option, none, some}

pub data Result {ℓ κ} (E : Type ℓ) (A : Type κ) : Type (ℓ ⊔ κ) where
  ok : A → Result E A
  err : E → Result E A

-- `?`: a failure ends the function, a value goes on.
module _ {ℓ κ ν} {E : Type ℓ} {A : Type κ} {B : Type ν} where
  infixl 5 ◌>>=◌
  abbrev pub ◌>>=◌ : Result E A → (A → Result E B) → Result E B
  err why >>= next = err why
  ok value >>= next = next value

-- `ok_or`.
abbrev pub or_fail {ℓ κ} : {E : Type ℓ} {A : Type κ} → Option A → E → Result E A
or_fail (some value) why = ok value
or_fail none why = err why

-- `if !test { return Err(e) }`.
abbrev pub guard {ℓ} : {E : Type ℓ} → Bool → E → Result E (Unit {0})
guard false why = err why
guard true why = ok tt

infixl 5 ◌>>◌
abbrev pub ◌>>◌ {ℓ κ} : {E : Type ℓ} {B : Type κ} → Result E (Unit {0}) → Result E B → Result E B
test >> after = test >>= λ done. after

pub Result-cases {ℓ κ} :
    {E : Type ℓ} {A : Type κ} (r : Result E A) → ((a : A) × (r ≡ ok a)) ⊎ ((e : E) × (r ≡ err e))
Result-cases (ok a) = inl (a, refl)
Result-cases (err e) = inr (e, refl)

module _ {ℓ κ ν} {E : Type ℓ} {A : Type κ} {B : Type ν} where
  -- The value behind a step that succeeded, and what came of it.
  pub >>=-eq-ok :
      (step : Result E A) (next : A → Result E B) {result : B}
      → (step >>= next) ≡ ok result
      → (a : A) × (step ≡ ok a) × (next a ≡ ok result)
  >>=-eq-ok (err why) next h = cc
  >>=-eq-ok (ok value) next h = (value, refl, h)

pub guard-eq-ok {ℓ} : {E : Type ℓ} (t : Bool) (e : E) {u : Unit {0}} → guard t e ≡ ok u → t ≡ true
guard-eq-ok true e h = refl
guard-eq-ok false e h = cc

module _ {ℓ κ} {E : Type ℓ} {A : Type κ} where
  pub ok-injective : (a b : A) → ◌≡◌ {A = Result E A} (ok a) (ok b) → a ≡ b
  ok-injective a b h = cc

  -- What came of a test that passed, and of the steps behind it.
  pub >>-eq-ok :
      (test : Result E (Unit {0})) (after : Result E A) {result : A}
      → (test >> after) ≡ ok result
      → (test ≡ ok tt) × (after ≡ ok result)
  >>-eq-ok (err why) after h = cc
  >>-eq-ok (ok tt) after h = (refl, h)
