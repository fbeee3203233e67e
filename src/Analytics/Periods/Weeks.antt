-- ===== src/Analytics/Periods/Weeks.antt =====
-- `%G-W%V` of docsifer/analytics/periods.py against the plain count of weeks since a Monday.
use docsifer.Prelude.{
  ℕ, zero, suc, ◌+◌, ◌-◌, ◌*◌, ◌/◌, ◌%◌, ◌≤◌, ◌<◌, ◌≡◌, ◌↔◌, ap, sym, arith, inl, inr, ◌⊎◌, ltb,
  leb, ltb→lt, leb→le, Bool-cases,
}
use native.Mathlib.Nat.{zero-add, suc-add}
use native.Mathlib.Numerals.{add-one}
use docsifer.Analytics.Periods.{Date, days_before_year, days_before, iso_start, iso_week}
use docsifer.Analytics.Periods.Calendar.{IsDate, days_before_year-suc, days_before_range}

-- The weeks that ended before the date, counted from Monday, 0001-01-01.
abbrev pub week_count : Date → ℕ
week_count d = days_before d / 7

-- Every ISO year starts on a Monday, within three days of its calendar year.
iso_start_lem :
    (y : ℕ)
    → (iso_start y % 7 ≡ 0)
      × (iso_start y ≤ days_before_year y + 3)
      × (days_before_year y ≤ iso_start y + 3)
unfolding iso_start
iso_start_lem y = omega arith

-- It has 52 or 53 weeks.
iso_start-suc :
    (y : ℕ)
    → 1 ≤ y
    → (iso_start (y + 1) ≡ iso_start y + 364) ⊎ (iso_start (y + 1) ≡ iso_start y + 371)
unfolding iso_start
iso_start-suc y h = ground (arith, days_before_year-suc y h)

iso_start_bounds :
    (y : ℕ)
    → 1 ≤ y
    → (iso_start y + 364 ≤ iso_start (y + 1)) × (iso_start (y + 1) ≤ iso_start y + 371)
iso_start_bounds y h = ground (arith, iso_start-suc y h)

iso_start_mono : (y k : ℕ) → 1 ≤ y → iso_start y ≤ iso_start (k + y)
iso_start_mono y zero h = rw (zero-add y) (omega arith)
iso_start_mono y (suc k) h =
    rw (suc-add k y, ← add-one (k + y))
      (omega (arith, iso_start_mono y k h, iso_start_bounds (k + y) (omega arith)))

-- A date stands in the week that `iso_week` names, which lies in the ISO year that it names.
pub record InWeek (d : Date) (g w : ℕ) : Type 0 where
  pub first : 1 ≤ w
  pub last : w ≤ 53
  pub near : (g ≤ d.year + 1) × (d.year ≤ g + 1)
  pub from : iso_start g + 7 * (w - 1) ≤ days_before d
  pub to : days_before d < iso_start g + 7 * w
  pub year : days_before d < iso_start (g + 1)

in_year :
    (d : Date) (g : ℕ)
    → 1 ≤ g
    → (g ≤ d.year + 1) × (d.year ≤ g + 1)
    → iso_start g ≤ days_before d
    → days_before d < iso_start (g + 1)
    → InWeek d g ((days_before d - iso_start g) / 7 + 1)
in_year d g pos near from to = omega (arith, iso_start_bounds g pos)

pub iso_week-InWeek : (d : Date) → IsDate d → InWeek d (iso_week d).0 (iso_week d).1
unfolding iso_week
iso_week-InWeek d v =
    let y = d.year in
    let n = days_before d in
    let r = days_before_range d v in
    let last : y - 1 + 1 ≡ y = omega arith in
    let before : iso_start (y - 1 + 1) ≡ iso_start y = ap iso_start last in
    elim (Bool-cases (ltb n (iso_start y))) [
      | inl e ↦
          rw (e, iso_week)
            (in_year d (y - 1) (omega arith) (omega arith)
              (omega (arith, r, before, iso_start_lem y, iso_start_bounds (y - 1) (omega arith)))
              (omega (arith, before, ltb→lt n (iso_start y) e)))
      | inr e ↦ elim (Bool-cases (leb (iso_start (y + 1)) n)) [
        | inl f ↦
            rw (e, f, iso_week)
              (in_year d (y + 1) (omega arith) (omega arith) (leb→le (iso_start (y + 1)) n f)
                (omega (arith, r, iso_start_lem (y + 1), iso_start_bounds (y + 1) (omega arith))))
        | inr f ↦
            rw (e, f, iso_week)
              (in_year d y (omega arith) (omega arith) (ground arith) (ground arith))
      ]
    ]

-- The ISO year is the one whose weeks the date lies among, so no other year fits.
same_year :
    (d e : Date) (g h w x : ℕ)
    → 1 ≤ g
    → InWeek d g w
    → InWeek e h x
    → week_count d ≡ week_count e
    → h ≤ g
same_year d e g h w x pos a b q = elim (Bool-cases (leb h g)) [
  | inl le ↦ leb→le h g le
  | inr e ↦
      let lt : g < h = ground arith in
      let shift : h - (g + 1) + (g + 1) ≡ h = omega arith in
      absurd (
        omega (
          arith,
          a.year,
          b.from,
          q,
          iso_start_lem h,
          iso_start_lem (g + 1),
          iso_start_mono (g + 1) (h - (g + 1)) (omega arith),
          ap iso_start shift,
        ))
]

same_week :
    (d e : Date)
    → IsDate d
    → IsDate e
    → week_count d ≡ week_count e
    → ((iso_week d).0 ≡ (iso_week e).0) × ((iso_week d).1 ≡ (iso_week e).1)
same_week d e v u q =
    let a = iso_week-InWeek d v in
    let b = iso_week-InWeek e u in
    let (g, w) = iso_week d in
    let (h, x) = iso_week e in
    let year : g ≡ h = omega (
      arith,
      same_year d e g h w x (omega (arith, a.near)) a b q,
      same_year e d h g x w (omega (arith, b.near)) b a (sym q),
    ) in
    (
      year,
      omega (
        arith,
        a.first,
        a.from,
        a.to,
        b.first,
        b.from,
        b.to,
        q,
        iso_start_lem g,
        ap iso_start year,
      ),
    )

-- Two dates have the same ISO year and week exactly if they stand in one week from Monday to Sunday,
-- also where a year ends in between; the week is from 1 to 53, and its year is that of the date
-- or the one before or after.
pub iso_week-eq_iff :
    (d e : Date)
    → IsDate d
    → IsDate e
    → ((iso_week d ≡ iso_week e) ↔ (week_count d ≡ week_count e))
      × (1 ≤ (iso_week d).1)
      × ((iso_week d).1 ≤ 53)
      × ((iso_week d).0 ≤ d.year + 1)
      × (d.year ≤ (iso_week d).0 + 1)
iso_week-eq_iff d e v u =
    let a = iso_week-InWeek d v in
    let b = iso_week-InWeek e u in
    (
      (
        λ p.
            let year = ap (λ x. x.0) p in
            omega (
              arith,
              a.first,
              a.from,
              a.to,
              b.from,
              b.to,
              iso_start_lem (iso_week d).0,
              ap iso_start year,
              ap (λ x. x.1) p,
            ),
        λ q. let s = same_week d e v u q in λ i. (s.0 i, s.1 i),
      ),
      a.first,
      a.last,
      a.near.0,
      a.near.1,
    )
