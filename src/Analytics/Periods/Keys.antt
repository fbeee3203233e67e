-- ===== src/Analytics/Periods/Keys.antt =====
-- Which accesses share a bucket: the texts of docsifer/analytics/periods.py, and what `access` of
-- docsifer/analytics/service.py adds under them.
use docsifer.Prelude.{ℕ, ◌<◌, ◌≡◌, ◌↔◌, ap, arith, [], ◌∷◌, ◌++◌, Str, str_eq}
use docsifer.Analytics.Periods.{
  Date, two_digits, four_digits, week_text, day_key, week_key, month_key, year_key, iso_week,
}
use docsifer.Analytics.Periods.Calendar.{IsDate, days_in_month-le}
use docsifer.Analytics.Periods.Weeks.{week_count, iso_week-eq_iff, iso_week-InWeek}

abbrev tail : Str → Str
tail [] = []
tail (c ∷ s) = s

two_digits-eq :
    (m n : ℕ) (s t : Str)
    → m < 100
    → n < 100
    → two_digits m ++ s ≡ two_digits n ++ t
    → (m ≡ n) × (s ≡ t)
two_digits-eq m n s t hm hn e = ground arith

four_digits-eq :
    (m n : ℕ) (s t : Str)
    → m < 10000
    → n < 10000
    → four_digits m ++ s ≡ four_digits n ++ t
    → (m ≡ n) × (s ≡ t)
four_digits-eq m n s t hm hn e = ground arith

day_key-eq : (d e : Date) → IsDate d → IsDate e → day_key d ≡ day_key e → d ≡ e
unfolding day_key
day_key-eq d e v u h =
    let (y, rest) = four_digits-eq d.year e.year _ _ (omega arith) (omega arith) h in
    let tails = ap tail rest in
    let (m, days) = two_digits-eq d.month e.month _ _ (omega arith) (omega arith) tails in
    let day =
      two_digits-eq d.day e.day [] [] (omega (arith, days_in_month-le d.year d.month))
        (omega (arith, days_in_month-le e.year e.month)) (ap tail days) in
    ground (arith, y, m, day)

month_key-eq :
    (d e : Date)
    → IsDate d
    → IsDate e
    → month_key d ≡ month_key e
    → (d.year ≡ e.year) × (d.month ≡ e.month)
unfolding month_key
month_key-eq d e v u h =
    let (y, rest) = four_digits-eq d.year e.year _ _ (omega arith) (omega arith) h in
    (y, (two_digits-eq d.month e.month [] [] (omega arith) (omega arith) (ap tail rest)).0)

week_text-eq :
    (g h w x : ℕ)
    → g < 10000
    → h < 10000
    → w < 100
    → x < 100
    → week_text (g, w) ≡ week_text (h, x)
    → (g ≡ h) × (w ≡ x)
week_text-eq g h w x hg hh hw hx e =
    let (year, rest) = four_digits-eq g h _ _ hg hh e in
    (year, (two_digits-eq w x [] [] hw hx (ap tail (ap tail rest))).0)

week_key-eq : (d e : Date) → IsDate d → IsDate e → week_key d ≡ week_key e → iso_week d ≡ iso_week e
unfolding week_key
week_key-eq d e v u h =
    let a = iso_week-InWeek d v in
    let b = iso_week-InWeek e u in
    let s =
      week_text-eq (iso_week d).0 (iso_week e).0 (iso_week d).1 (iso_week e).1
        (omega (arith, a.near)) (omega (arith, b.near)) (omega (arith, a.last))
        (omega (arith, b.last)) h in
    λ i. (s.0 i, s.1 i)

-- Two dates have the same key for the day, the week, the month or the year exactly if it is the
-- same day, week from Monday to Sunday, month or year.
pub period_keys-eq_iff :
    (d e : Date)
    → IsDate d
    → IsDate e
    → ((day_key d ≡ day_key e) ↔ (d ≡ e))
      × ((week_key d ≡ week_key e) ↔ (week_count d ≡ week_count e))
      × ((month_key d ≡ month_key e) ↔ ((d.year ≡ e.year) × (d.month ≡ e.month)))
      × ((year_key d ≡ year_key e) ↔ (d.year ≡ e.year))
period_keys-eq_iff d e v u =
    let weeks = (iso_week-eq_iff d e v u).0 in
    (
      (day_key-eq d e v u, ap day_key),
      (λ h. weeks.0 (week_key-eq d e v u h), λ q. unfold week_key in ap week_text (weeks.1 q)),
      (month_key-eq d e v u, λ h. unfold month_key in rw (h.0, h.1)),
      (
        λ h.
            unfold year_key in
            (four_digits-eq d.year e.year [] [] (omega arith) (omega arith)
              (unfold year_key in h)).0,
        λ h. unfold year_key in ap four_digits h,
      ),
    )
