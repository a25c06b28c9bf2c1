-- ===== src/Cli/Trim.antt =====
-- src/cli/trim.rs: the memory that a guest is asked to give back. What the host and the guest answer
-- is a parameter; the sizes that the balloon is asked to take are the effects. The wait for the
-- guest between the two requests decides nothing.
pub mod Target
pub mod Deflated
use vivarium.Prelude.{
  ℕ, ◌+◌, ◌-◌, ◌*◌, ◌/◌, Bool, true, false, Option, none, some, List, [], ◌∷◌, ltb, leb,
  if◌then◌else◌, Result, ok, err, ◌>>=◌, or_fail,
}
use vivarium.Protocol.Message.{MemoryReport}

abbrev pub mib : ℕ
mib = 1024 * 1024

abbrev pub headroom_floor_bytes : ℕ
headroom_floor_bytes = 512 * 1024 * 1024

-- `saturating_sub` and `div_ceil`.
unfoldable pub working_set_mib : (total_bytes available_bytes : ℕ) → ℕ
working_set_mib total_bytes available_bytes = (total_bytes - available_bytes + (mib - 1)) / mib

unfoldable pub headroom_target : ℕ → ℕ
headroom_target working_set =
    let floor_mib = headroom_floor_bytes / mib in
    working_set + (if ltb floor_mib (working_set / 4) then working_set / 4 else floor_mib)

pub data Failure : Type 0 where
  unprepared memory_unreadable no_record no_report resize_refused : Failure

abbrev pub minimum : ℕ → ℕ → ℕ
minimum a b = if leb a b then a else b

abbrev pub maximum : ℕ → ℕ → ℕ
maximum a b = if leb a b then b else a

unfoldable pub derive_target : Option MemoryReport → Option ℕ → ℕ → Result Failure ℕ
unfolding working_set_mib headroom_target
derive_target none (some to) declared = ok to
derive_target (some report) (some to) declared =
    let floor = working_set_mib report.total_bytes report.available_bytes in
    ok (if ltb to floor then floor else to)
derive_target none none declared = err no_report
derive_target (some report) none declared =
    let working_set = working_set_mib report.total_bytes report.available_bytes in
    ok (minimum (headroom_target working_set) (maximum declared 1))

-- What is answered in one run: the checks in front, the readings, the record, the report, and the
-- requests of the balloon.
pub record Host : Type 0 where
  pub prepared : Bool
  pub charge_before : Option ℕ
  pub declared_mib : Option ℕ
  pub report : Option MemoryReport
  pub resize : ℕ → Bool
  pub charge_after : Option ℕ

pub record MemoryTrimReading : Type 0 where
  pub target_mib : ℕ
  pub before : ℕ
  pub after : ℕ

-- The outcome, and the sizes that the balloon was asked to take, in order.
pub record Rung : Type 0 where
  pub outcome : Result Failure MemoryTrimReading
  pub asked : List ℕ

abbrev pub failing : Failure → List ℕ → Rung
failing why asked = record { outcome = err why; asked = asked }

module _ (host : Host) (to_mib : Option ℕ) where
  abbrev pub measured : (target before : ℕ) → List ℕ → Option ℕ → Rung
  measured target before asked none = failing memory_unreadable asked
  measured target before asked (some after) = record {
    outcome = ok (record { target_mib = target; before = before; after = after });
    asked = asked;
  }

  abbrev pub deflated : (target before balloon : ℕ) → Bool → Rung
  deflated target before balloon false = failing resize_refused (balloon ∷ 0 ∷ [])
  deflated target before balloon true = measured target before (balloon ∷ 0 ∷ []) host.charge_after

  abbrev pub inflated : (target before balloon : ℕ) → Bool → Rung
  inflated target before balloon false = failing resize_refused (balloon ∷ [])
  inflated target before balloon true = deflated target before balloon (host.resize 0)

  unfoldable pub reclaim : (target before declared : ℕ) → Rung
  reclaim target before declared =
      let balloon = declared - target in
      if ltb 0 balloon
      then inflated target before balloon (host.resize balloon)
      else measured target before [] host.charge_after

  abbrev pub targeted : (before declared : ℕ) → Result Failure ℕ → Rung
  targeted before declared (err why) = failing why []
  targeted before declared (ok target) = reclaim target before declared

  abbrev pub recorded : ℕ → Option ℕ → Rung
  recorded before none = failing no_record []
  recorded before (some declared) =
      targeted before declared (derive_target host.report to_mib declared)

  abbrev pub charged : Option ℕ → Rung
  charged none = failing memory_unreadable []
  charged (some before) = recorded before host.declared_mib

  unfoldable pub memory_rung : Rung
  unfolding reclaim derive_target
  memory_rung = if host.prepared then charged host.charge_before else failing unprepared []
