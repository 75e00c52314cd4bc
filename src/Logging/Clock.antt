-- ===== src/Logging/Clock.antt =====
-- The date of `format_clf_time` in rust-server/src/logging.rs: seconds since 1970 to a civil date,
-- by Hinnant's `civil_from_days`. The day number `z` is never negative here, so the branch of `era`
-- for a negative one is left out, and the `i64` values are natural numbers below 2 ^ 63.
pub mod Years
pub mod Calendar
mod Tests
use single_binary_static_web.Prelude.{
  ℕ, ◌+◌, ◌-◌, ◌*◌, ◌/◌, ◌%◌, ◌^◌, Bool, ltb, leb, ◌==◌, if◌then◌else◌,
}

pub record Civil : Type 0 where
  pub year : ℕ
  pub month : ℕ
  pub day : ℕ

abbrev pub civil : ℕ → ℕ → ℕ → Civil
civil y m d = record { year = y; month = m; day = d }

-- `doe as u32`, the day of the era of 400 years
pub day_of_era : ℕ → ℕ
day_of_era z = (z - z / 146097 * 146097) % 2 ^ 32

pub year_of_era : ℕ → ℕ
year_of_era doe = (doe - doe / 1460 + doe / 36524 - doe / 146096) / 365

-- `doy`, the day of the year that begins in March
pub day_of_year : ℕ → ℕ → ℕ
day_of_year doe yoe = doe - (365 * yoe + yoe / 4 - yoe / 100)

pub month_of : ℕ → ℕ
month_of doy = (5 * doy + 2) / 153

pub day_of_month : ℕ → ℕ → ℕ
day_of_month doy mp = doy - (153 * mp + 2) / 5 + 1

-- March-based month `mp` of the year `y` to the civil year and month.
pub from_march : ℕ → ℕ → ℕ → Civil
from_march y mp d =
    let m = if ltb mp 10 then mp + 3 else mp - 9 in civil (if leb m 2 then y + 1 else y) m d

unfoldable pub civil_from_days : ℕ → Civil
unfolding day_of_era year_of_era day_of_year month_of day_of_month from_march
civil_from_days days =
    let z = days + 719468 in
    let doe = day_of_era z in
    let yoe = year_of_era doe in
    let doy = day_of_year doe yoe in
    let mp = month_of doy in from_march (yoe + z / 146097 * 400) mp (day_of_month doy mp)
