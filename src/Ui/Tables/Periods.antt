-- ===== src/Ui/Tables/Periods.antt =====
-- The tables of docsifer/ui/gradio_app.py over the buckets that docsifer/analytics writes.
use docsifer.Prelude.{ℕ, ◌≡◌, refl, arith, false, Option, List, [], ◌∷◌, map, Str, str_eq, All}
use docsifer.Prelude.Dict
use docsifer.Prelude.Text.{codes}
use docsifer.Analytics.Counter.{Buckets, Metric, at, at_bucket, bucket}
use docsifer.Analytics.Counter.Laws.{at-empty}
use docsifer.Analytics.Periods.{Date, period_keys, day_key, week_key, month_key, year_key}
use docsifer.Analytics.Periods.Once.{member, record_access-period_keys, member-period_keys}
use docsifer.Analytics.Service.{Service, init, record_access, refresh_snapshot, stats}
use docsifer.Ui.Tables.{Row, row_of, cell, df_from_bucket, rows_or, fetch_stats}

-- A number of accesses, each on a date, after a start with nothing.
pub record Visit : Type 0 where
  pub date : Date
  pub tokens : ℕ
  pub label : Option Str

unfoldable pub visited : Str → List Visit → Service
unfolding init record_access
visited label [] = init label
visited label (v ∷ vs) = record_access (period_keys v.date) v.tokens v.label (visited label vs)

-- A name that is no key of a date.
abbrev Foreign : Str → Type 0
Foreign p = (d : Date) → member p (period_keys d) ≡ false

daily-Foreign : Foreign (codes "daily")
unfolding period_keys day_key week_key month_key year_key
daily-Foreign d = ground arith

weekly-Foreign : Foreign (codes "weekly")
unfolding period_keys day_key week_key month_key year_key
weekly-Foreign d = ground arith

monthly-Foreign : Foreign (codes "monthly")
unfolding period_keys day_key week_key month_key year_key
monthly-Foreign d = ground arith

yearly-Foreign : Foreign (codes "yearly")
unfolding period_keys day_key week_key month_key year_key
yearly-Foreign d = ground arith

at-visited :
    (m : Metric) (p l label : Str) (vs : List Visit)
    → Foreign p
    → at m p l (visited label vs).totals ≡ 0
unfolding visited
at-visited m p l label [] f = unfold init in at-empty m p l
at-visited m p l label (v ∷ vs) f = ground (
  arith,
  record_access-period_keys v.date v.tokens v.label (visited label vs) m p l,
  member-period_keys p v.date,
  f v.date,
  at-visited m p l label vs f,
)

visited-snapshot :
    (label : Str) (vs : List Visit) → (visited label vs).snapshot ≡ (visited label vs).totals
unfolding visited
visited-snapshot label [] = unfold init in refl
visited-snapshot label (v ∷ vs) = unfold record_access refresh_snapshot in refl

abbrev pub OnlyTotals : Row → Type 0
OnlyTotals r = (r.daily ≡ 0) × (r.weekly ≡ 0) × (r.monthly ≡ 0) × (r.yearly ≡ 0)

map-OnlyTotals :
    (b : Buckets) (ms : List Str)
    → ((m : Str) → OnlyTotals (row_of b m))
    → All OnlyTotals (rows_or (map (row_of b) ms))
map-OnlyTotals b [] h = ((refl, refl, refl, refl), tt)
map-OnlyTotals b (m ∷ ms) h = (h m, all ms)
  where
    all : (ms : List Str) → All OnlyTotals (map (row_of b) ms)
    all [] = tt
    all (m ∷ ms) = (h m, all ms)

visited-OnlyTotals :
    (label : Str) (vs : List Visit) (m : Metric)
    → All OnlyTotals (df_from_bucket (bucket m (visited label vs).snapshot))
unfolding df_from_bucket Dict.get at_bucket
visited-OnlyTotals label vs m = rw (visited-snapshot label vs) (
    map-OnlyTotals (bucket m (visited label vs).totals) _ λ l.
      unfold row_of cell in
      (
        at-visited m (codes "daily") l label vs daily-Foreign,
        at-visited m (codes "weekly") l label vs weekly-Foreign,
        at-visited m (codes "monthly") l label vs monthly-Foreign,
        at-visited m (codes "yearly") l label vs yearly-Foreign,
      ))

-- After any accesses on any dates, both tables of the UI say 0 in every column but the total's.
pub fetch_stats-OnlyTotals :
    (label : Str) (vs : List Visit)
    → All OnlyTotals (fetch_stats (visited label vs)).0
      × All OnlyTotals (fetch_stats (visited label vs)).1
unfolding fetch_stats stats
fetch_stats-OnlyTotals label vs =
    (visited-OnlyTotals label vs Metric.access, visited-OnlyTotals label vs Metric.tokens)
