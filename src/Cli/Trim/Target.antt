-- ===== src/Cli/Trim/Target.antt =====
-- src/cli/trim.rs: the size that a guest is asked to reach.
use vivarium.Prelude.{
  ℕ, ◌+◌, ◌*◌, ◌≤◌, ◌≡◌, refl, ◌⊎◌, inl, inr, Option, none, some, ltb, leb, ok, arith, Bool-cases,
}
use vivarium.Protocol.Message.{MemoryReport}
use vivarium.Cli.Trim.{mib, working_set_mib, headroom_target, derive_target, maximum}

working_set_mib-covers :
    (total available : ℕ) → total ≤ available + working_set_mib total available * mib
unfolding working_set_mib
working_set_mib-covers total available = omega arith

-- A target that was derived or asked for, of a guest that reports, covers the memory that the
-- guest works with, except that a derived one stops at what was declared, or at one.
pub derive_target-covers :
    (report : MemoryReport) (to : Option ℕ) (declared target : ℕ)
    → derive_target (some report) to declared ≡ ok target
    → (report.total_bytes ≤ report.available_bytes + target * mib)
      ⊎ ((to ≡ none) × (target ≡ maximum declared 1))
unfolding derive_target headroom_target
derive_target-covers report (some to) declared target h =
    let floor = working_set_mib report.total_bytes report.available_bytes in
    let covers = working_set_mib-covers report.total_bytes report.available_bytes in
    elim (Bool-cases (ltb to floor)) [
      | inl e ↦
          let same : floor ≡ target = ground (arith, e, h) in inl (omega (arith, covers, same))
      | inr e ↦
          let same : to ≡ target = ground (arith, e, h) in
          let at_least : floor ≤ to = ground (arith, e) in
          inl (omega (arith, covers, same, at_least))
    ]
derive_target-covers report none declared target h =
    let set = working_set_mib report.total_bytes report.available_bytes in
    let covers = working_set_mib-covers report.total_bytes report.available_bytes in
    elim (Bool-cases (leb (headroom_target set) (maximum declared 1))) [
      | inl e ↦
          let same : headroom_target set ≡ target = ground (arith, e, h) in
          let above : set ≤ headroom_target set = omega arith in
          inl (omega (arith, covers, same, above))
      | inr e ↦ inr (refl, ground (arith, e, h))
    ]
