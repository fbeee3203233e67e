-- ===== src/Analytics/Periods.antt =====
-- docsifer/analytics/periods.py: the keys of the buckets that an access falls into, and the calendar
-- behind `strftime`. A date is that of `now`, of a year with four digits.
pub mod Calendar
pub mod Weeks
pub mod Keys
pub mod Once
use docsifer.Prelude.{
  ℕ, zero, suc, ◌+◌, ◌-◌, ◌*◌, ◌/◌, ◌%◌, Bool, true, false, not, ◌||◌, List, [], ◌∷◌, ◌++◌, Str,
  ltb, leb, nat_beq, if◌then◌else◌,
}
use docsifer.Prelude.Text.{codes}

pub record Date : Type 0 where
  pub year : ℕ
  pub month : ℕ
  pub day : ℕ

unfoldable pub is_leap : ℕ → Bool
is_leap y =
    if not (nat_beq (y % 4) 0)
    then false
    else if not (nat_beq (y % 100) 0)
    then true
    else nat_beq (y % 400) 0

unfoldable pub days_in_month : ℕ → ℕ → ℕ
unfolding is_leap
days_in_month y m =
    if nat_beq m 2
    then (if is_leap y then 29 else 28)
    else if nat_beq m 4 || nat_beq m 6 || nat_beq m 9 || nat_beq m 11
    then 30
    else 31

-- The days of the year before the month `m`, which counts from 1.
unfoldable pub days_before_month : ℕ → ℕ → ℕ
days_before_month y zero = 0
days_before_month y (suc zero) = 0
days_before_month y (suc (suc m)) = days_before_month y (suc m) + days_in_month y (suc m)

unfoldable pub days_before_year : ℕ → ℕ
days_before_year y = let p = y - 1 in p * 365 + p / 4 - p / 100 + p / 400

-- The days before the date: 0001-01-01, a Monday, has none.
unfoldable pub days_before : Date → ℕ
days_before d = days_before_year d.year + days_before_month d.year d.month + (d.day - 1)

-- The Monday of the week that has January 4th.
unfoldable pub iso_start : ℕ → ℕ
iso_start y = let n = days_before_year y + 3 in n - n % 7

-- %G and %V
unfoldable pub iso_week : Date → ℕ × ℕ
iso_week d =
    let n = days_before d in
    if ltb n (iso_start d.year)
    then (d.year - 1, (n - iso_start (d.year - 1)) / 7 + 1)
    else if leb (iso_start (d.year + 1)) n
    then (d.year + 1, (n - iso_start (d.year + 1)) / 7 + 1)
    else (d.year, (n - iso_start d.year) / 7 + 1)

abbrev pub two_digits : ℕ → Str
two_digits n = (48 + n / 10 % 10) ∷ (48 + n % 10) ∷ []

abbrev pub four_digits : ℕ → Str
four_digits n = (48 + n / 1000 % 10) ∷ (48 + n / 100 % 10) ∷ two_digits n

unfoldable pub day_key : Date → Str
day_key d = four_digits d.year ++ b'-' ∷ two_digits d.month ++ b'-' ∷ two_digits d.day

abbrev pub week_text : ℕ × ℕ → Str
week_text (g, w) = four_digits g ++ b'-' ∷ b'W' ∷ two_digits w

unfoldable pub week_key : Date → Str
week_key d = week_text (iso_week d)

unfoldable pub month_key : Date → Str
month_key d = four_digits d.year ++ b'-' ∷ two_digits d.month

unfoldable pub year_key : Date → Str
year_key d = four_digits d.year

unfoldable pub period_keys : Date → List Str
unfolding day_key week_key month_key year_key
period_keys d = day_key d ∷ week_key d ∷ month_key d ∷ year_key d ∷ codes "total" ∷ []
