-- ===== src/Config/Timestamps/RoundTrip.antt =====
-- src/config/generations.rs: `parse_rfc3339_utc` on what `rfc3339_utc` prints.
use vivarium.Prelude.{
  ℕ, ◌+◌, ◌-◌, ◌*◌, ◌/◌, ◌%◌, ◌≤◌, ◌<◌, ◌≡◌, refl, ◌∙◌, ap, true, false, ◌&&◌, ◌||◌, leb, ltb,
  arith, [], ◌∷◌, ◌++◌, Bytes, some,
}
use vivarium.Launch.Checks.{is_digit}
use vivarium.Config.Timestamps.{
  Civil, epoch_day, offset_years, civil_from_days, digit, two_digits, four_digits, date_text,
  rfc3339_utc, number, value_from, instant, civil_eq, parse_rfc3339_utc,
}
use vivarium.Config.Timestamps.Calendar.{
  civil_from_days-bounds, civil_from_days-year, days_from_civil-civil_from_days,
}

digit-is_digit : (n : ℕ) → is_digit (digit n) ≡ true
digit-is_digit n = ground arith

abbrev year_digits : ℕ → Bytes
year_digits n = digit (n / 1000) ∷ digit (n / 100) ∷ digit (n / 10) ∷ digit n ∷ []

four_digits-lt : (n : ℕ) → n < 10000 → four_digits n ≡ year_digits n
four_digits-lt n h = ground arith

-- Twenty bytes, of numbers with so many digits.
abbrev stamp : (year month day hour minute second : ℕ) → Bytes
stamp year month day hour minute second =
    year_digits year
    ++ (b'-' ∷ two_digits month
        ++ (b'-' ∷ two_digits day
            ++ (b'T' ∷ two_digits hour
                ++ (b':' ∷ two_digits minute ++ (b':' ∷ two_digits second ++ (b'Z' ∷ []))))))

two-value : (n : ℕ) → n < 100 → value_from 0 (two_digits n) ≡ n
two-value n h = omega arith

year-value : (n : ℕ) → n < 10000 → value_from 0 (year_digits n) ≡ n
year-value n h = omega arith

parse-stamp :
    (year month day hour minute second : ℕ)
    → year < 10000
    → month < 100
    → day < 100
    → hour < 100
    → minute < 100
    → second < 100
    → parse_rfc3339_utc (stamp year month day hour minute second)
      ≡ instant (record { year = year + offset_years; month = month; day = day }) hour minute second
unfolding parse_rfc3339_utc number
parse-stamp year month day hour minute second y mo d h mi s =
    rw
      (
        digit-is_digit (year / 1000),
        digit-is_digit (year / 100),
        digit-is_digit (year / 10),
        digit-is_digit year,
        digit-is_digit (month / 10),
        digit-is_digit month,
        digit-is_digit (day / 10),
        digit-is_digit day,
        digit-is_digit (hour / 10),
        digit-is_digit hour,
        digit-is_digit (minute / 10),
        digit-is_digit minute,
        digit-is_digit (second / 10),
        digit-is_digit second,
        year-value year y,
        two-value month mo,
        two-value day d,
        two-value hour h,
        two-value minute mi,
        two-value second s,
      )
      refl

civil_eq_refl : (date : Civil) → civil_eq date date ≡ true
civil_eq_refl date = ground arith

instant-civil :
    (z hour minute second : ℕ)
    → epoch_day ≤ z
    → hour < 24
    → minute < 60
    → second < 60
    → instant (civil_from_days z) hour minute second
      ≡ some ((z - epoch_day) * 86400 + hour * 3600 + minute * 60 + second)
unfolding instant
instant-civil z hour minute second low h mi s =
    let bounds = civil_from_days-bounds z in
    let date = civil_from_days z in
    let ranged : (leb 1 date.month && leb date.month 12 && leb 1 date.day && leb date.day 31)
        ≡ true =
      ground (arith, bounds.0, bounds.1, bounds.2, bounds.3) in
    let timed : (ltb 23 hour || ltb 59 minute || ltb 59 second) ≡ false = ground arith in
    let late : ltb z epoch_day ≡ false = ground arith in
    rw (instant, ranged, timed, days_from_civil-civil_from_days z, civil_eq_refl date, late) refl

date-apart :
    (z : ℕ) (rest : Bytes)
    → 400 ≤ (civil_from_days z).year
    → (civil_from_days z).year < 10400
    → date_text (civil_from_days z) ++ rest
      ≡ year_digits ((civil_from_days z).year - offset_years)
        ++ (b'-' ∷ two_digits (civil_from_days z).month
            ++ (b'-' ∷ two_digits (civil_from_days z).day ++ (b'T' ∷ rest)))
unfolding date_text
date-apart z rest low high =
    rw (four_digits-lt ((civil_from_days z).year - offset_years) (omega arith)) refl

restored :
    (date : Civil)
    → 400 ≤ date.year
    → record { year = date.year - offset_years + offset_years; month = date.month; day = date.day }
      ≡ date
restored date h = ap (λ y. record { year = y; month = date.month; day = date.day }) (omega arith)

-- Reading what was printed of an instant in front of the year 10000 gives the instant.
pub parse_rfc3339_utc-rfc3339_utc :
    (epoch_seconds : ℕ)
    → epoch_seconds < 253402300800
    → parse_rfc3339_utc (rfc3339_utc epoch_seconds) ≡ some epoch_seconds
unfolding rfc3339_utc
parse_rfc3339_utc-rfc3339_utc epoch_seconds h =
    let z = epoch_seconds / 86400 + epoch_day in
    let seconds = epoch_seconds % 86400 in
    let year = civil_from_days-year z (omega arith) (omega arith) in
    let bounds = civil_from_days-bounds z in
    let date = civil_from_days z in
    ap parse_rfc3339_utc (date-apart z _ year.0 year.1)
    ∙ parse-stamp (date.year - offset_years) date.month date.day (seconds / 3600)
        (seconds % 3600 / 60) (seconds % 60) (omega arith) (omega arith) (omega arith) (omega arith)
        (omega arith) (omega arith)
    ∙ ap (λ d. instant d (seconds / 3600) (seconds % 3600 / 60) (seconds % 60))
        (restored date year.0)
    ∙ instant-civil z (seconds / 3600) (seconds % 3600 / 60) (seconds % 60) (omega arith)
        (omega arith) (omega arith) (omega arith)
    ∙ ap some (omega arith)
