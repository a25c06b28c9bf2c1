-- ===== src/Launch/Checks/Facts.antt =====
-- src/launch/spec.rs: what a test of the validation that passed says.
use vivarium.Prelude.{
  ℕ, ◌+◌, ◌-◌, ◌≤◌, ap, ◌^◌, ◌<◌, ◌≡◌, refl, ◌↔◌, true, List, [], ◌∷◌, Bytes, All, arith,
  Bool-cases, ltb, leb, inl, inr, ok, >>-eq-ok,
}
use vivarium.Launch.Spec.{DescriptorBudget}
use vivarium.Launch.Mounts.{is_absolute}
use vivarium.Launch.Checks.{
  Check, all_ok, require_absolute_resolved, require_exact_child, guest_allowance,
  effective_worker_count,
}

abbrev pub Passes : Check → Type 0
Passes test = test ≡ ok tt

pub all_ok-All : (tests : List Check) → all_ok tests ≡ ok tt → All Passes tests
unfolding all_ok
all_ok-All [] h = tt
all_ok-All (test ∷ tests) h =
    let (first, rest) = >>-eq-ok test (all_ok tests) h in (first, all_ok-All tests rest)

pub All-all_ok : (tests : List Check) → All Passes tests → all_ok tests ≡ ok tt
unfolding all_ok
All-all_ok [] h = refl
All-all_ok (test ∷ tests) h = rw (all_ok, h.0) (All-all_ok tests h.1)

pub require_absolute_resolved-is_absolute :
    (path : Bytes) → Passes (require_absolute_resolved path) → is_absolute path ≡ true
unfolding require_absolute_resolved
require_absolute_resolved-is_absolute path h = ground (arith, h)

pub require_exact_child-absolute :
    (path root : Bytes)
    → Passes (require_exact_child path root)
    → Passes (require_absolute_resolved path)
unfolding require_exact_child
require_exact_child-absolute path root h = (>>-eq-ok (require_absolute_resolved path) _ h).0

-- What the limit leaves of a reserve.
abbrev reserve : DescriptorBudget → ℕ
reserve budget = 609 + effective_worker_count budget

allowance-ok :
    (budget : DescriptorBudget) (n : ℕ)
    → guest_allowance budget ≡ ok n
    → (0 < n) × (budget.limit ≡ n + reserve budget)
unfolding guest_allowance
allowance-ok budget n h = elim (Bool-cases (ltb (reserve budget) (2 ^ 64))) [
  | inr e ↦ absurd (ground (arith, e, h))
  | inl e ↦ elim (Bool-cases (leb (reserve budget) budget.limit)) [
    | inr f ↦ absurd (ground (arith, e, f, h))
    | inl f ↦ elim (Bool-cases (ltb 0 (budget.limit - reserve budget))) [
      | inr g ↦ absurd (ground (arith, e, f, g, h))
      | inl g ↦
          let same : budget.limit - reserve budget ≡ n = ground (arith, e, f, g, h) in
          ground (arith, f, g, same)
    ]
  ]
]

lt→ltb : (a b : ℕ) → a < b → ltb a b ≡ true
lt→ltb a b h = ground arith

le→leb : (a b : ℕ) → a ≤ b → leb a b ≡ true
le→leb a b h = ground arith

ok-allowance :
    (budget : DescriptorBudget) (n : ℕ)
    → budget.limit < 2 ^ 64
    → 0 < n
    → budget.limit ≡ n + reserve budget
    → guest_allowance budget ≡ ok n
unfolding guest_allowance
ok-allowance budget n bound positive split =
    let e : ltb (reserve budget) (2 ^ 64) ≡ true = lt→ltb (reserve budget) (2 ^ 64) (omega arith) in
    let f : leb (reserve budget) budget.limit ≡ true =
      le→leb (reserve budget) budget.limit (omega arith) in
    let g : ltb 0 (budget.limit - reserve budget) ≡ true =
      lt→ltb 0 (budget.limit - reserve budget) (omega arith) in
    rw (guest_allowance, e, f, g) (ap ok (omega arith))

-- For a limit of 64 bits, the allowance is what the limit leaves of the reserve of 609 and of the
-- pool, an empty pool counting one, and it is given exactly where that is positive.
pub guest_allowance_iff :
    (budget : DescriptorBudget) (n : ℕ)
    → budget.limit < 2 ^ 64
    → (guest_allowance budget ≡ ok n)
      ↔ ((0 < n) × (budget.limit ≡ n + (609 + effective_worker_count budget)))
guest_allowance_iff budget n bound =
    (allowance-ok budget n, λ both. ok-allowance budget n bound both.0 both.1)
