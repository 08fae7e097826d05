-- ===== src/Times/Calendar.antt =====
-- The date is that of the Gregorian calendar.
use nginx_comment.Common.{
  ℕ, zero, suc, List, [], ◌∷◌, get_or, take, ltb→lt, ltb→ge, ◌+◌, ◌-◌, ◌*◌, ◌/◌, ◌≤◌, ◌<◌, ◌≡◌,
  refl, sym, Bool, true, ◌&&◌, arith, ltb, leb, ◌==◌, if◌then◌else◌, Bool-cases, inl, inr,
}
use nginx_comment.Common.Bits.{passes}
use nginx_comment.Times.{year_days, leap, march_date, month_of, day_of_month}

-- The year before the correction.
near :
    (days y : ℕ)
    → y ≡ (days + 2) * 400 / 146097
    → 365 < days
    → (year_days y ≤ days + 2) × (days < year_days (y + 1)) × (0 < y)
near days y e h = omega arith

-- A year has 365 days and the leap day of the year in which it ends.
pub year_days-suc : (y : ℕ) → year_days (y + 1) ≡ year_days y + 365 + leap (y + 1)
year_days-suc y = ground arith

-- The corrected year and day: the day lies in the year.
pub record MarchDate (days y yday : ℕ) : Type 0 where
  pub same : days ≡ year_days y + yday
  pub inside : yday < 365 + leap (y + 1)

early_year :
    (days z : ℕ)
    → year_days (z + 1) ≤ days + 2
    → days < year_days (z + 1)
    → MarchDate days z (365 + leap (z + 1) - (year_days (z + 1) - days))
early_year days z lo hi =
    let e = year_days-suc z in record { same = omega (arith, e); inside = omega (arith, e) }

late_year :
    (days y : ℕ)
    → year_days y ≤ days
    → days < year_days (y + 1)
    → MarchDate days y (days - year_days y)
late_year days y lo hi =
    let e = year_days-suc y in record { same = omega arith; inside = omega (arith, e) }

march_of : (days y : ℕ) → ℕ × ℕ
march_of days y =
    if ltb days (year_days y)
    then (y - 1, 365 + leap y - (year_days y - days))
    else (y, days - year_days y)

march_of-MarchDate :
    (days y : ℕ)
    → year_days y ≤ days + 2
    → days < year_days (y + 1)
    → 0 < y
    → MarchDate days (march_of days y).0 (march_of days y).1
unfolding march_of
march_of-MarchDate days zero lo hi some = absurd (omega arith)
march_of-MarchDate days (suc z) lo hi some =
    let g : z + 1 ≡ suc z = omega arith in
    let k : suc z - 1 ≡ z = omega arith in
    elim (Bool-cases (ltb days (year_days (suc z)))) [
      | inl t ↦ rw (t, k, sym g) (early_year days z (rw g lo) (omega (arith, ltb→lt _ _ t)))
      | inr t ↦ rw t (late_year days (suc z) (ltb→ge _ _ t) hi)
    ]

-- From day 366 of the count on, the year and the day that the code computes and corrects are those
-- of a day that lies in that year, which begins in March and has the leap day at its end.
pub march_date-MarchDate :
    (days : ℕ) → 365 < days → MarchDate days (march_date days).0 (march_date days).1
unfolding march_date march_of
march_date-MarchDate days h =
    let (lo, hi, some) = near days ((days + 2) * 400 / 146097) refl h in
    march_of-MarchDate days ((days + 2) * 400 / 146097) lo hi some

-- The lengths of the months, and the days before a month in its year, by whether there is a leap
-- day.
abbrev pub lengths : ℕ → List ℕ
lengths l = 31 ∷ (28 + l) ∷ 31 ∷ 30 ∷ 31 ∷ 30 ∷ 31 ∷ 31 ∷ 30 ∷ 31 ∷ 30 ∷ 31 ∷ []

abbrev pub month_length : ℕ → ℕ → ℕ
month_length l mon = get_or (lengths l) (mon - 1) 0

abbrev pub sum : List ℕ → ℕ
sum [] = 0
sum (x ∷ xs) = x + sum xs

abbrev pub before_month : ℕ → ℕ → ℕ
before_month l mon = sum (take (mon - 1) (lengths l))

-- A month and a day of it, and the day of the year that they make.
unfoldable pub is_date : ℕ → ℕ → ℕ → ℕ → Bool
is_date l mon mday n =
    leb 1 mon
    && leb mon 12
    && leb 1 mday
    && leb mday (month_length l mon)
    && before_month l mon + mday == n

-- The days of a year that begins in March: up to December they are in the year where it begins,
-- with or without a leap day, and behind that in the next.
pub early_table :
    (l : ℕ)
    → l < 2
    → passes (λ d. is_date l (month_of d + 2) (day_of_month d) (60 + l + d)) 306 ≡ true
unfolding passes is_date day_of_month month_of
early_table zero h = refl
early_table (suc zero) h = refl
early_table (suc (suc l)) h = absurd (omega arith)

pub late_table :
    (l : ℕ)
    → l < 2
    → passes (λ d. is_date l (month_of (d + 306) - 10) (day_of_month (d + 306)) (d + 1)) (59 + l)
      ≡ true
unfolding passes is_date day_of_month month_of
late_table zero h = refl
late_table (suc zero) h = refl
late_table (suc (suc l)) h = absurd (omega arith)
