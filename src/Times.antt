-- ===== src/Times.antt =====
-- demo/src/core/ngx_times.c: `ngx_gmtime`, the calendar date and time of day of a `time_t`.
pub mod Calendar
pub mod Date
use nginx_comment.Common.{
  ℕ, suc, ◌+◌, ◌-◌, ◌*◌, ◌/◌, ◌%◌, ltb, leb, ◌==◌, if◌then◌else◌, not, Bool, ◌&&◌, ◌||◌,
}

-- A `time_t`: `negsuc n` is -(n + 1).
pub data ℤ : Type 0 where
  pos negsuc : ℕ → ℤ

-- `ngx_tm_t`
pub record Tm : Type 0 where
  pub sec : ℕ
  pub min : ℕ
  pub hour : ℕ
  pub mday : ℕ
  pub mon : ℕ
  pub year : ℕ
  pub wday : ℕ

-- `365 * year + year / 4 - year / 100 + year / 400`
abbrev pub year_days : ℕ → ℕ
year_days year = 365 * year + year / 4 - year / 100 + year / 400

-- `leap`
abbrev pub leap : ℕ → ℕ
leap year = if year % 4 == 0 && (not (year % 100 == 0) || year % 400 == 0) then 1 else 0

-- The year that begins in March, and the day of it, of a day counted from March 1, 1 BC. `yday` is
-- negative where the year is taken too late.
unfoldable pub march_date : ℕ → ℕ × ℕ
march_date days =
    let year = (days + 2) * 400 / 146097 in
    if ltb days (year_days year)
    then (year - 1, 365 + leap year - (year_days year - days))
    else (year, days - year_days year)

-- `mon` and `mday` of the day of such a year.
unfoldable pub month_of : ℕ → ℕ
month_of yday = (yday + 31) * 10 / 306

unfoldable pub day_of_month : ℕ → ℕ
unfolding month_of
day_of_month yday = yday + 1 - (367 * month_of yday / 12 - 30)

-- `ngx_gmtime` behind the truncation to the year 9999. The code subtracts 31 + 28 first, without a
-- sign and so modulo 2^64, and adds 719527 then: the sum is the same.
unfoldable pub civil : ℕ → ℕ → Tm
civil days sec =
    let (year, yday) = march_date (days + 719527 - (31 + 28)) in
    let mon = month_of yday in
    record {
      sec = sec % 3600 % 60;
      min = sec % 3600 / 60;
      hour = sec / 3600;
      mday = day_of_month yday;
      mon = if leb 306 yday then mon - 10 else mon + 2;
      year = if leb 306 yday then year + 1 else year;
      wday = (4 + days) % 7;
    }

-- The last second of the year 9999 stands for all that come later.
unfoldable pub truncated : ℕ → Tm
unfolding civil
truncated t = if ltb 2932896 (t / 86400) then civil 2932896 86399 else civil (t / 86400) (t % 86400)

unfoldable pub gmtime : ℤ → Tm
unfolding truncated
gmtime (pos t) = truncated t
gmtime (negsuc t) = truncated 0
