-- ===== src/Analytics/Periods/Once.antt =====
-- One access of docsifer/analytics/service.py under the keys of docsifer/analytics/periods.py: each
-- of its buckets counts it once.
use docsifer.Prelude.{
  ℕ, ◌+◌, ◌≡◌, ◌≢◌, refl, ap, arith, Bool, true, false, not, ◌&&◌, ◌||◌, Option, List, [], ◌∷◌, Str,
  str_eq, ◌==◌, ==_iff, if◌then◌else◌, length, Bool-cases, inl, inr,
}
use docsifer.Prelude.Text.{codes}
use docsifer.Analytics.Counter.{Metric, at}
use docsifer.Analytics.Service.{Service, record_access, label_or}
use docsifer.Analytics.Service.Recording.{owed, worth, at-record_all}
use docsifer.Analytics.Periods.{Date, day_key, week_key, month_key, year_key, period_keys}

abbrev pub member : Str → List Str → Bool
member p [] = false
member p (q ∷ qs) = if q == p then true else member p qs

abbrev distinct : List Str → Bool
distinct [] = true
distinct (q ∷ qs) = not (member q qs) && distinct qs

-- Under distinct keys an access is counted once.
owed-distinct :
    (p : Str) (keys : List Str) (w : ℕ)
    → distinct keys ≡ true
    → owed p keys w ≡ (if member p keys then w else 0)
unfolding owed
owed-distinct p [] w h = refl
owed-distinct p (q ∷ keys) w h = ground (arith, owed-distinct p keys w, ==_iff q p)

ne_of_length : (s t : Str) → length s ≢ length t → (s == t) ≡ false
ne_of_length s t h = elim (Bool-cases (s == t)) [
  | inl e ↦ absurd (h (ap length ((==_iff s t).0 e)))
  | inr e ↦ e
]

distinct_of_lengths :
    (a b c d e : Str)
    → length a ≡ 10
    → length b ≡ 8
    → length c ≡ 7
    → length d ≡ 4
    → length e ≡ 5
    → distinct (a ∷ b ∷ c ∷ d ∷ e ∷ []) ≡ true
distinct_of_lengths a b c d e ha hb hc hd he =
    rw
      (
        ne_of_length b a (omega arith),
        ne_of_length c a (omega arith),
        ne_of_length d a (omega arith),
        ne_of_length e a (omega arith),
        ne_of_length c b (omega arith),
        ne_of_length d b (omega arith),
        ne_of_length e b (omega arith),
        ne_of_length d c (omega arith),
        ne_of_length e c (omega arith),
        ne_of_length e d (omega arith),
      )
      refl

-- The five keys have five lengths.
period_keys-distinct : (d : Date) → distinct (period_keys d) ≡ true
unfolding period_keys
period_keys-distinct d =
    distinct_of_lengths (day_key d) (week_key d) (month_key d) (year_key d) (codes "total") refl
      refl refl refl refl

-- The five buckets of a date: its day, its ISO week, its month, its year, and the total.
abbrev pub in_buckets : Str → Date → Bool
in_buckets p d =
    day_key d == p || week_key d == p || month_key d == p || year_key d == p || codes "total" == p

one_of_five :
    (a b c d e : Bool)
    → (if a
        then true
        else if b
        then true
        else if c
        then true
        else if d
        then true
        else if e
        then true
        else false)
      ≡ (a || b || c || d || e)
one_of_five true b c d e = refl
one_of_five false true c d e = refl
one_of_five false false true d e = refl
one_of_five false false false true e = refl
one_of_five false false false false true = refl
one_of_five false false false false false = refl

pub member-period_keys : (p : Str) (d : Date) → member p (period_keys d) ≡ in_buckets p d
unfolding period_keys
member-period_keys p d =
    one_of_five (day_key d == p) (week_key d == p) (month_key d == p) (year_key d == p)
      (codes "total" == p)

-- An access adds its worth to the buckets of the day, the ISO week, the month and the year of its
-- date and to the total, under its own label, to each of these five once, whatever the date, and to
-- no other.
pub record_access-period_keys :
    (d : Date) (n : ℕ) (label : Option Str) (s : Service) (m : Metric) (p l : Str)
    → at m p l (record_access (period_keys d) n label s).totals
      ≡ at m p l s.totals + (if label_or label s.label == l && in_buckets p d then worth m n else 0)
unfolding record_access
record_access-period_keys d n label s m p l = ground (
  arith,
  at-record_all (period_keys d) (label_or label s.label) n s.totals m p l,
  owed-distinct p (period_keys d) (worth m n) (period_keys-distinct d),
  member-period_keys p d,
)
