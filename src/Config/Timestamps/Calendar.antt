-- ===== src/Config/Timestamps/Calendar.antt =====
-- src/config/generations.rs: `days_from_civil` undoes `civil_from_days`.
use vivarium.Prelude.{
  ℕ, ◌+◌, ◌-◌, ◌*◌, ◌/◌, ◌≤◌, ◌<◌, ◌≡◌, ◌∙◌, leb, ltb, if◌then◌else◌, arith, inl, inr, Bool-cases,
  leb→le,
}
use vivarium.Config.Timestamps.{
  civil_from_days, days_from_civil, year_of_era, days_before_year, month_index, from_march,
}

year_of_era-bounds :
    (doe : ℕ)
    → doe < 146097
    → (year_of_era doe < 400)
      × (days_before_year (year_of_era doe) ≤ doe)
      × (doe ≤ days_before_year (year_of_era doe) + 365)
year_of_era-bounds doe h = (omega arith, omega arith, omega arith)

month_index-bounds :
    (doy : ℕ)
    → doy < 366
    → (month_index doy < 12)
      × ((153 * month_index doy + 2) / 5 ≤ doy)
      × (doy ≤ (153 * month_index doy + 2) / 5 + 30)
month_index-bounds doy h = (omega arith, omega arith, omega arith)

-- The number of a month, and the way back.
from_march-bounds : (mp : ℕ) → mp < 12 → (1 ≤ from_march mp) × (from_march mp ≤ 12)
from_march-bounds mp h = ground arith

abbrev to_march : ℕ → ℕ
to_march month = if ltb 2 month then month - 3 else month + 9

to_march-from_march : (mp : ℕ) → mp < 12 → to_march (from_march mp) ≡ mp
to_march-from_march mp h = ground arith

-- A January or a February counts to the year before, which is the year of the first of March.
adjusted-year :
    (month year : ℕ)
    → (if leb month 2
        then (if leb month 2 then year + 1 else year) - 1
        else if leb month 2
        then year + 1
        else year)
      ≡ year
adjusted-year month year = ground arith

pub civil_from_days-bounds :
    (z : ℕ)
    → (1 ≤ (civil_from_days z).month)
      × ((civil_from_days z).month ≤ 12)
      × (1 ≤ (civil_from_days z).day)
      × ((civil_from_days z).day ≤ 31)
unfolding civil_from_days
civil_from_days-bounds z =
    let doe = z - z / 146097 * 146097 in
    let yoe = year_of_era-bounds doe (omega arith) in
    let doy = doe - days_before_year (year_of_era doe) in
    let mp = month_index-bounds doy (omega (arith, yoe.1, yoe.2)) in
    let month = from_march-bounds (month_index doy) mp.0 in
    (month.0, month.1, omega arith, omega (arith, mp.1, mp.2))

-- The parts of a day of an era, put together again.
era-parts :
    (era yoe doy mp : ℕ)
    → yoe < 400
    → (153 * mp + 2) / 5 ≤ doy
    → (yoe + era * 400) / 400 * 146097
        + ((yoe + era * 400 - (yoe + era * 400) / 400 * 400) * 365
            + (yoe + era * 400 - (yoe + era * 400) / 400 * 400) / 4
            - (yoe + era * 400 - (yoe + era * 400) / 400 * 400) / 100
            + ((153 * mp + 2) / 5 + (doy - (153 * mp + 2) / 5 + 1) - 1))
      ≡ era * 146097 + (days_before_year yoe + doy)
era-parts era yoe doy mp h k =
    let same : (yoe + era * 400) / 400 ≡ era = omega arith in
    let kept : yoe + era * 400 - era * 400 ≡ yoe = omega arith in rw (same, kept) (omega arith)

-- The day that a date was computed from is the day of that date.
pub days_from_civil-civil_from_days : (z : ℕ) → days_from_civil (civil_from_days z) ≡ z
unfolding civil_from_days days_from_civil
days_from_civil-civil_from_days z =
    let doe = z - z / 146097 * 146097 in
    let yoe = year_of_era-bounds doe (omega arith) in
    let doy = doe - days_before_year (year_of_era doe) in
    let mp = month_index-bounds doy (omega (arith, yoe.1, yoe.2)) in
    rw
      (
        adjusted-year (from_march (month_index doy)) (year_of_era doe + z / 146097 * 400),
        to_march-from_march (month_index doy) mp.0,
      )
      (era-parts (z / 146097) (year_of_era doe) doy (month_index doy) yoe.0 mp.1
        ∙ omega (arith, yoe.1))

january : (doy : ℕ) → from_march (month_index doy) ≤ 2 → 306 ≤ doy
january doy h = ground arith

-- The years of the days from 1970 until the year 10000, with the offset.
pub civil_from_days-year :
    (z : ℕ)
    → 865565 ≤ z
    → z < 3798462
    → (400 ≤ (civil_from_days z).year) × ((civil_from_days z).year < 10400)
unfolding civil_from_days
civil_from_days-year z low high =
    let doe = z - z / 146097 * 146097 in
    let yoe = year_of_era-bounds doe (omega arith) in
    let doy = doe - days_before_year (year_of_era doe) in
    elim (Bool-cases (leb (from_march (month_index doy)) 2)) [
      | inl e ↦
          let late = january doy (leb→le _ _ e) in
          rw e (omega arith, omega (arith, yoe.0, yoe.1, late))
      | inr e ↦ rw e (omega arith, omega (arith, yoe.0))
    ]
