-- ===== src/Cli/Trim/Deflated.antt =====
-- src/cli/trim.rs, `memory_rung`: the sizes that the balloon is asked to take.
use vivarium.Prelude.{
  ℕ, ◌-◌, ◌<◌, ◌≡◌, refl, ◌⊎◌, inl, inr, true, false, Option, none, some, List, [], ◌∷◌, ltb, arith,
  Bool-cases, Option-cases, Result-cases,
}
use vivarium.Cli.Trim.{Host, Rung, memory_rung, reclaim, derive_target, measured}

-- What may have been asked: nothing, a size that was refused, or a size and then none.
abbrev pub IsRestored : Host → Rung → Type 0
IsRestored host rung =
    (rung.asked ≡ [])
    ⊎ ((balloon : ℕ) × (0 < balloon)
        × (((rung.asked ≡ balloon ∷ []) × (host.resize balloon ≡ false))
            ⊎ (rung.asked ≡ balloon ∷ 0 ∷ [])))

module _ (host : Host) (to : Option ℕ) where
  measured-asked :
      (target before : ℕ) (asked : List ℕ) (charge : Option ℕ)
      → (measured host to target before asked charge).asked ≡ asked
  measured-asked target before asked none = refl
  measured-asked target before asked (some after) = refl

  reclaim-IsRestored :
      (target before declared : ℕ) → IsRestored host (reclaim host to target before declared)
  unfolding reclaim
  reclaim-IsRestored target before declared = elim (Bool-cases (ltb 0 (declared - target))) [
    | inr e ↦ inl (rw (reclaim, e) (measured-asked target before [] host.charge_after))
    | inl e ↦ elim (Bool-cases (host.resize (declared - target))) [
      | inr f ↦ inr (declared - target, ground (arith, e), inl (rw (reclaim, e, f) refl, f))
      | inl f ↦ inr (declared - target, ground (arith, e), inr (both e f))
    ]
  ]
    where
      both :
          ltb 0 (declared - target) ≡ true
          → host.resize (declared - target) ≡ true
          → (reclaim host to target before declared).asked ≡ (declared - target) ∷ 0 ∷ []
      both e f = elim (Bool-cases (host.resize 0)) [
        | inl g ↦
            rw (reclaim, e, f, g)
              (measured-asked target before ((declared - target) ∷ 0 ∷ []) host.charge_after)
        | inr g ↦ rw (reclaim, e, f, g) refl
      ]

  -- Whatever fails on the way, a run that asked the balloon for a size that was not refused asked
  -- it for none behind that.
  pub memory_rung-IsRestored : IsRestored host (memory_rung host to)
  unfolding memory_rung
  memory_rung-IsRestored = elim (Bool-cases host.prepared) [
    | inr e ↦ inl (rw (memory_rung, e) refl)
    | inl e ↦ elim (Option-cases host.charge_before) [
      | inl f ↦ inl (rw (memory_rung, e, f) refl)
      | inr (before, f) ↦ elim (Option-cases host.declared_mib) [
        | inl g ↦ inl (rw (memory_rung, e, f, g) refl)
        | inr (declared, g) ↦ elim (Result-cases (derive_target host.report to declared)) [
          | inr (why, k) ↦ inl (rw (memory_rung, e, f, g, k) refl)
          | inl (target, k) ↦
              rw (memory_rung, e, f, g, k) (reclaim-IsRestored target before declared)
        ]
      ]
    ]
  ]
