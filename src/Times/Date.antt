-- ===== src/Times/Date.antt =====
-- The date and the time of day that `ngx_gmtime` gives are those of its second.
use nginx_comment.Common.{
  ℕ, ◌+◌, ◌-◌, ◌*◌, ◌/◌, ◌%◌, ◌≤◌, ◌<◌, ◌≡◌, true, false, arith, ltb, leb, if◌then◌else◌,
  Bool-cases, inl, inr, ltb→lt, ltb→ge,
}
use nginx_comment.Common.Bits.{at-passes}
use nginx_comment.Times.{
  ℤ, pos, negsuc, Tm, year_days, leap, month_of, day_of_month, civil, truncated, gmtime,
}
use nginx_comment.Times.Calendar.{
  MarchDate, year_days-suc, march_date-MarchDate, month_length, before_month, is_date, early_table,
  late_table,
}

-- The number of a date, where that of January 1 of the year 1 is 1.
abbrev pub day_number : ℕ → ℕ → ℕ → ℕ
day_number year mon mday = year_days (year - 1) + before_month (leap year) mon + mday

-- A date and a time of day that exist, and are those of a day, counted from January 1, 1970, and a
-- second of it. January 1, 1970 was a Thursday.
pub record IsTime (tm : Tm) (days sec : ℕ) : Type 0 where
  pub mon_positive : 1 ≤ tm.mon
  pub mon_small : tm.mon ≤ 12
  pub mday_positive : 1 ≤ tm.mday
  pub mday_small : tm.mday ≤ month_length (leap tm.year) tm.mon
  pub day : day_number tm.year tm.mon tm.mday ≡ day_number 1970 1 1 + days
  pub weekday : tm.wday ≡ (days + 4) % 7
  pub hour_small : tm.hour < 24
  pub min_small : tm.min < 60
  pub sec_small : tm.sec < 60
  pub second : tm.hour * 3600 + tm.min * 60 + tm.sec ≡ sec

leap_small : (y : ℕ) → leap y < 2
leap_small y = ground arith

-- What the tables say of a month and a day of it.
record IsDate (l mon mday n : ℕ) : Type 0 where
  mon_positive : 1 ≤ mon
  mon_small : mon ≤ 12
  mday_positive : 1 ≤ mday
  mday_small : mday ≤ month_length l mon
  number : before_month l mon + mday ≡ n

is_date-IsDate : (l mon mday n : ℕ) → is_date l mon mday n ≡ true → IsDate l mon mday n
unfolding is_date
is_date-IsDate l mon mday n h = record {
  mon_positive = ground arith;
  mon_small = ground arith;
  mday_positive = ground arith;
  mday_small = ground arith;
  number = ground arith;
}

early-IsDate : (l d : ℕ) → l < 2 → d < 306 → IsDate l (month_of d + 2) (day_of_month d) (60 + l + d)
early-IsDate l d h k =
    is_date-IsDate _ _ _ _ (
      at-passes (λ d. is_date l (month_of d + 2) (day_of_month d) (60 + l + d)) k (early_table l h))

late-IsDate :
    (l d : ℕ)
    → l < 2
    → d < 59 + l
    → IsDate l (month_of (d + 306) - 10) (day_of_month (d + 306)) (d + 1)
late-IsDate l d h k = is_date-IsDate _ _ _ _ (
    at-passes (λ d. is_date l (month_of (d + 306) - 10) (day_of_month (d + 306)) (d + 1)) k
      (late_table l h))

-- The year, the month and the day of a day `d` of the year that begins in March of `y`.
module _ (days y d sec : ℕ) (m : MarchDate (days + 719468) y d) (s : sec < 86400) where
  tm : Tm
  tm = record {
    sec = sec % 3600 % 60;
    min = sec % 3600 / 60;
    hour = sec / 3600;
    mday = day_of_month d;
    mon = if leb 306 d then month_of d - 10 else month_of d + 2;
    year = if leb 306 d then y + 1 else y;
    wday = (4 + days) % 7;
  }

  year_positive : 0 < y
  year_positive = ground (arith, m.same, m.inside, leap_small (y + 1))

  early-IsTime : d < 306 → IsTime tm days sec
  unfolding tm
  early-IsTime h =
      let e : leb 306 d ≡ false = ground arith in
      let t = early-IsDate (leap y) d (leap_small y) h in
      let z : y - 1 + 1 ≡ y = omega (arith, year_positive) in
      let f : year_days y ≡ year_days (y - 1) + 365 + leap y = rw z at (year_days-suc (y - 1)) in
      rw e (record {
        mon_positive = t.mon_positive;
        mon_small = t.mon_small;
        mday_positive = t.mday_positive;
        mday_small = t.mday_small;
        day = omega (arith, t.number, f, m.same);
        weekday = omega arith;
        hour_small = omega arith;
        min_small = omega arith;
        sec_small = omega arith;
        second = omega arith;
      })

  late-IsTime : 306 ≤ d → IsTime tm days sec
  unfolding tm
  late-IsTime h =
      let e : leb 306 d ≡ true = ground arith in
      let k : d - 306 + 306 ≡ d = omega arith in
      let t =
        rw k at
          (late-IsDate (leap (y + 1)) (d - 306) (leap_small (y + 1)) (omega (arith, m.inside))) in
      let z : y + 1 - 1 ≡ y = omega arith in
      rw e (record {
        mon_positive = t.mon_positive;
        mon_small = t.mon_small;
        mday_positive = t.mday_positive;
        mday_small = t.mday_small;
        day = rw z (omega (arith, t.number, m.same));
        weekday = omega arith;
        hour_small = omega arith;
        min_small = omega arith;
        sec_small = omega arith;
        second = omega arith;
      })

  tm-IsTime : IsTime tm days sec
  tm-IsTime = elim (Bool-cases (ltb d 306)) [
    | inl e ↦ early-IsTime (ltb→lt _ _ e)
    | inr e ↦ late-IsTime (ltb→ge _ _ e)
  ]

civil-IsTime : (days sec : ℕ) → sec < 86400 → IsTime (civil days sec) days sec
unfolding civil tm
civil-IsTime days sec s =
    let e : days + 719527 - (31 + 28) ≡ days + 719468 = omega arith in
    rw e (tm-IsTime days _ _ sec (march_date-MarchDate (days + 719468) (omega arith)) s)

-- The seconds that the code can show: those before 1970 and those behind the year 9999 are not.
abbrev pub clamped : ℤ → ℕ
clamped (negsuc n) = 0
clamped (pos t) = if ltb 253402300799 t then 253402300799 else t

-- For every `time_t`, `ngx_gmtime` gives the Gregorian date, the day of the week and the time of day
-- of that second, a date that exists; a negative one counts as 0, and one behind the year 9999 as
-- the last second of it.
pub gmtime-IsTime : (t : ℤ) → IsTime (gmtime t) (clamped t / 86400) (clamped t % 86400)
unfolding gmtime truncated
gmtime-IsTime (negsuc n) = civil-IsTime 0 0 (omega arith)
gmtime-IsTime (pos t) = elim (Bool-cases (ltb 2932896 (t / 86400))) [
  | inl e ↦
      let f : ltb 253402300799 t ≡ true = ground arith in
      rw (truncated, e, f) (civil-IsTime 2932896 86399 (omega arith))
  | inr e ↦
      let f : ltb 253402300799 t ≡ false = ground arith in
      rw (truncated, e, f) (civil-IsTime (t / 86400) (t % 86400) (omega arith))
]
