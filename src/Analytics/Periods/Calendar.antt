-- ===== src/Analytics/Periods/Calendar.antt =====
-- Dates in their years, for docsifer/analytics/periods.py.
use docsifer.Prelude.{ℕ, zero, suc, ◌+◌, ◌-◌, ◌≤◌, ◌<◌, ◌≡◌, refl, ap, arith, if◌then◌else◌}
use native.Mathlib.Nat.{zero-add, suc-add}
use docsifer.Analytics.Periods.{
  Date, is_leap, days_in_month, days_before_month, days_before_year, days_before,
}

pub record IsDate (d : Date) : Type 0 where
  pub year_in : (1001 ≤ d.year) × (d.year ≤ 9998)
  pub month_in : (1 ≤ d.month) × (d.month ≤ 12)
  pub day_in : (1 ≤ d.day) × (d.day ≤ days_in_month d.year d.month)

pub days_in_month-le : (y m : ℕ) → days_in_month y m ≤ 31
unfolding days_in_month
days_in_month-le y m = ground arith

abbrev pub days_in_year : ℕ → ℕ
days_in_year y = if is_leap y then 366 else 365

-- A year has as many days as its leap rule says.
pub days_before_year-suc :
    (y : ℕ) → 1 ≤ y → days_before_year (y + 1) ≡ days_before_year y + days_in_year y
unfolding days_before_year is_leap
days_before_year-suc y h = ground arith

days_before_month-suc :
    (y m : ℕ) → 1 ≤ m → days_before_month y (suc m) ≡ days_before_month y m + days_in_month y m
unfolding days_before_month
days_before_month-suc y zero h = absurd (omega arith)
days_before_month-suc y (suc m) h = refl

days_before_month_mono : (y m k : ℕ) → 1 ≤ m → days_before_month y m ≤ days_before_month y (k + m)
days_before_month_mono y m zero h = rw (zero-add m) (omega arith)
days_before_month_mono y m (suc k) h =
    rw (suc-add k m)
      (omega (arith, days_before_month_mono y m k h, days_before_month-suc y (k + m) (omega arith)))

twelve_months : (y : ℕ) → days_before_month y 13 ≡ days_in_year y
unfolding days_before_month days_in_month
twelve_months y = ground arith

-- A date lies within its year.
pub days_before_range :
    (d : Date)
    → IsDate d
    → (days_before_year d.year ≤ days_before d) × (days_before d < days_before_year (d.year + 1))
unfolding days_before
days_before_range d v =
    let y = d.year in
    let m = d.month in
    let thirteen : 12 - m + suc m ≡ 13 = omega arith in
    omega (
      arith,
      days_before_month-suc y m (omega arith),
      days_before_month_mono y (suc m) (12 - m) (omega arith),
      ap (days_before_month y) thirteen,
      twelve_months y,
      days_before_year-suc y (omega arith),
    )
