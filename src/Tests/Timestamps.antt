-- ===== src/Tests/Timestamps.antt =====
-- The theorems on the instants of src/config/generations.rs at concrete inputs.
use vivarium.Prelude.{◌≡◌, refl, some, none, codes, arith}
use vivarium.Config.Timestamps.{
  civil_from_days, days_from_civil, date_text, rfc3339_utc, parse_rfc3339_utc, number, instant,
}
use vivarium.Config.Timestamps.RoundTrip.{parse_rfc3339_utc-rfc3339_utc}

-- A leap day, and a day that February does not have.
printed : rfc3339_utc 1709164800 ≡ codes "2024-02-29T00:00:00Z"
unfolding rfc3339_utc date_text civil_from_days
printed = refl

no_date : parse_rfc3339_utc (codes "2026-02-31T00:00:00Z") ≡ none
unfolding parse_rfc3339_utc number instant civil_from_days days_from_civil
no_date = refl

parse_rfc3339_utc-rfc3339_utc_example : parse_rfc3339_utc (rfc3339_utc 1709164800) ≡ some 1709164800
parse_rfc3339_utc-rfc3339_utc_example = parse_rfc3339_utc-rfc3339_utc 1709164800 (omega arith)
