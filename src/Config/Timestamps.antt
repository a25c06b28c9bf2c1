-- ===== src/Config/Timestamps.antt =====
-- src/config/generations.rs: the instants that a generation's record carries. The code counts days
-- in a signed number from 1970-01-01. Here a day counts from the first of March of the year -400,
-- so that every day of a year that the text can carry has a number, and a year carries the offset
-- with it. A quotient of 64 bits by the seconds of a day always fits the signed number.
pub mod Calendar
pub mod RoundTrip
use vivarium.Prelude.{
  ℕ, zero, suc, ◌+◌, ◌-◌, ◌*◌, ◌/◌, ◌%◌, Bool, true, false, ◌&&◌, ◌||◌, not, Option, none, some,
  List, [], ◌∷◌, ◌++◌, Bytes, length, take, drop, leb, ltb, ◌==◌, if◌then◌else◌, all,
}
use vivarium.Launch.Checks.{is_digit}

-- The 400 years of the offset, and 1970-01-01 in days: 719_468 and the days of one era.
abbrev pub offset_years : ℕ
offset_years = 400

abbrev pub epoch_day : ℕ
epoch_day = 719468 + 146097

pub record Civil : Type 0 where
  pub year : ℕ
  pub month : ℕ
  pub day : ℕ

abbrev pub year_of_era : ℕ → ℕ
year_of_era doe = (doe - doe / 1460 + doe / 36524 - doe / 146096) / 365

abbrev pub days_before_year : ℕ → ℕ
days_before_year yoe = 365 * yoe + yoe / 4 - yoe / 100

abbrev pub month_index : ℕ → ℕ
month_index doy = (5 * doy + 2) / 153

abbrev pub from_march : ℕ → ℕ
from_march mp = if ltb mp 10 then mp + 3 else mp - 9

unfoldable pub civil_from_days : ℕ → Civil
civil_from_days z = record {
  year = if leb month 2 then year + 1 else year;
  month = month;
  day = doy - (153 * mp + 2) / 5 + 1;
}
  where
    era : ℕ
    era = z / 146097

    doe : ℕ
    doe = z - era * 146097

    yoe : ℕ
    yoe = year_of_era doe

    year : ℕ
    year = yoe + era * 400

    doy : ℕ
    doy = doe - days_before_year yoe

    mp : ℕ
    mp = month_index doy

    month : ℕ
    month = from_march mp

unfoldable pub days_from_civil : Civil → ℕ
days_from_civil date = era * 146097 + doe
  where
    year : ℕ
    year = if leb date.month 2 then date.year - 1 else date.year

    era : ℕ
    era = year / 400

    yoe : ℕ
    yoe = year - era * 400

    doy : ℕ
    doy =
        (153 * (if ltb 2 date.month then date.month - 3 else date.month + 9) + 2) / 5 + date.day - 1

    doe : ℕ
    doe = yoe * 365 + yoe / 4 - yoe / 100 + doy

abbrev pub digit : ℕ → ℕ
digit n = b'0' + n % 10

-- `{:02}` of a number below a hundred.
abbrev pub two_digits : ℕ → Bytes
two_digits n = digit (n / 10) ∷ digit n ∷ []

abbrev pub decimal : ℕ → ℕ → Bytes
decimal zero n = []
decimal (suc fuel) n =
    let front = decimal fuel (n / 10) in if ltb n 10 then digit n ∷ [] else front ++ (digit n ∷ [])

-- `{:04}`: no year of 64 bits of seconds has more than twenty digits.
abbrev pub four_digits : ℕ → Bytes
four_digits n =
    if ltb n 10000
    then digit (n / 1000) ∷ digit (n / 100) ∷ digit (n / 10) ∷ digit n ∷ []
    else decimal 20 n

unfoldable pub date_text : Civil → Bytes
date_text date =
    four_digits (date.year - offset_years)
    ++ (b'-' ∷ two_digits date.month ++ (b'-' ∷ two_digits date.day ++ (b'T' ∷ [])))

unfoldable pub rfc3339_utc : ℕ → Bytes
unfolding civil_from_days date_text
rfc3339_utc epoch_seconds =
    let seconds = epoch_seconds % 86400 in
    date_text (civil_from_days (epoch_seconds / 86400 + epoch_day))
    ++ (two_digits (seconds / 3600)
        ++ (b':' ∷ two_digits (seconds % 3600 / 60)
            ++ (b':' ∷ two_digits (seconds % 60) ++ (b'Z' ∷ []))))

-- The value of decimal digits.
abbrev pub value_from : ℕ → Bytes → ℕ
value_from n [] = n
value_from n (b ∷ bs) = value_from (n * 10 + (b - b'0')) bs

abbrev pub byte_at : ℕ → Bytes → ℕ
byte_at n [] = 0
byte_at zero (b ∷ bs) = b
byte_at (suc n) (b ∷ bs) = byte_at n bs

-- `number(from..from + count)`.
unfoldable pub number : Bytes → ℕ → ℕ → Option ℕ
number text from count =
    let piece = take count (drop from text) in
    if all is_digit piece then some (value_from 0 piece) else none

abbrev pub shaped : Bytes → Bool
shaped text =
    length text == 20
    && byte_at 4 text == b'-'
    && byte_at 7 text == b'-'
    && byte_at 10 text == b'T'
    && byte_at 13 text == b':'
    && byte_at 16 text == b':'
    && byte_at 19 text == b'Z'

abbrev pub civil_eq : Civil → Civil → Bool
civil_eq a b = a.year == b.year && a.month == b.month && a.day == b.day

-- `u64::try_from` of the total: a day in front of the epoch is refused.
unfoldable pub instant : Civil → (hour minute second : ℕ) → Option ℕ
unfolding civil_from_days days_from_civil
instant date hour minute second =
    if not (leb 1 date.month && leb date.month 12 && leb 1 date.day && leb date.day 31)
    then none
    else if ltb 23 hour || ltb 59 minute || ltb 59 second
    then none
    else if not (civil_eq (civil_from_days (days_from_civil date)) date)
    then none
    else if ltb (days_from_civil date) epoch_day
    then none
    else some ((days_from_civil date - epoch_day) * 86400 + hour * 3600 + minute * 60 + second)

-- The six numbers, each of which may be none. The year carries the offset.
abbrev pub instant_of : (year month day hour minute second : Option ℕ) → Option ℕ
instant_of (some year) (some month) (some day) (some hour) (some minute) (some second) =
    instant (record { year = year + offset_years; month = month; day = day }) hour minute second
instant_of _ _ _ _ _ _ = none

unfoldable pub parse_rfc3339_utc : Bytes → Option ℕ
unfolding number
parse_rfc3339_utc text =
    if not (shaped text)
    then none
    else instant_of (number text 0 4) (number text 5 2) (number text 8 2) (number text 11 2)
        (number text 14 2) (number text 17 2)
