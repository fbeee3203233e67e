-- ===== src/Tests/Calendar.antt =====
-- Dates of docsifer/analytics/periods.py around the turn of a year.
use docsifer.Prelude.{◌+◌, ◌≡◌, refl, ◌↔◌, none, [], ◌∷◌, arith, ◌&&◌, str_eq, ◌==◌, if◌then◌else◌}
use docsifer.Prelude.Text.{codes}
use docsifer.Analytics.Counter.{tokens, at}
use docsifer.Analytics.Service.{Service, record_access, label_or, init}
use docsifer.Analytics.Service.Recording.{worth}
use docsifer.Analytics.Periods.{
  Date, iso_week, day_key, week_key, month_key, year_key, period_keys, days_in_month,
}
use docsifer.Analytics.Periods.Calendar.{IsDate}
use docsifer.Analytics.Periods.Weeks.{week_count}
use docsifer.Analytics.Periods.Keys.{period_keys-eq_iff}
use docsifer.Analytics.Periods.Once.{in_buckets, record_access-period_keys}

-- The Monday before the new year, and the Sunday behind it.
abbrev monday : Date
monday = record { year = 2024; month = 12; day = 30 }

abbrev sunday : Date
sunday = record { year = 2025; month = 1; day = 5 }

keys_run :
    (period_keys monday
      ≡ codes "2024-12-30" ∷ codes "2025-W01" ∷ codes "2024-12" ∷ codes "2024" ∷ codes "total" ∷ [])
    × (week_key sunday ≡ week_key monday)
unfolding period_keys iso_week docsifer.Analytics.Periods.days_before
    docsifer.Analytics.Periods.days_before_year docsifer.Analytics.Periods.days_before_month
    days_in_month docsifer.Analytics.Periods.iso_start
keys_run = (refl, refl)

monday-IsDate : IsDate monday
unfolding days_in_month
monday-IsDate = record {
  year_in = (omega arith, omega arith);
  month_in = (omega arith, omega arith);
  day_in = (omega arith, omega arith);
}

sunday-IsDate : IsDate sunday
unfolding days_in_month
sunday-IsDate = record {
  year_in = (omega arith, omega arith);
  month_in = (omega arith, omega arith);
  day_in = (omega arith, omega arith);
}

abbrev no_accesses : Service
no_accesses = init (codes "docsifer")

period_keys-eq_iff_example :
    ((day_key monday ≡ day_key sunday) ↔ (monday ≡ sunday))
    × ((week_key monday ≡ week_key sunday) ↔ (week_count monday ≡ week_count sunday))
    × ((month_key monday ≡ month_key sunday)
        ↔ ((monday.year ≡ sunday.year) × (monday.month ≡ sunday.month)))
    × ((year_key monday ≡ year_key sunday) ↔ (monday.year ≡ sunday.year))
period_keys-eq_iff_example = period_keys-eq_iff monday sunday monday-IsDate sunday-IsDate

-- Seven tokens are counted in the bucket of the ISO week.
record_access-period_keys_example :
    at tokens
      (codes "2025-W01")
      (codes "docsifer")
      (record_access (period_keys monday) 7 none no_accesses).totals
    ≡ at tokens (codes "2025-W01") (codes "docsifer") no_accesses.totals
      + (if label_or none no_accesses.label == codes "docsifer"
            && in_buckets (codes "2025-W01") monday
          then worth tokens 7
          else 0)
record_access-period_keys_example =
    record_access-period_keys monday 7 none no_accesses tokens (codes "2025-W01") (codes "docsifer")
