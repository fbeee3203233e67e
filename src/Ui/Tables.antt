-- ===== src/Ui/Tables.antt =====
-- `_df_from_bucket` and `_fetch_stats` of docsifer/ui/gradio_app.py: a table is the list of its rows.
pub mod Periods
pub mod Models
use docsifer.Prelude.{
  ℕ, Bool, true, false, ◌||◌, ◌&&◌, Option, none, some, List, [], ◌∷◌, map, Str, str_eq, ltb,
  nat_beq, ◌==◌, if◌then◌else◌,
}
use docsifer.Prelude.Dict
use docsifer.Prelude.Text.{codes}
use docsifer.Analytics.Counter.{Labels, Buckets, Counter, labels_or, count_or}
use docsifer.Analytics.Service.{Service, stats}

pub record Row : Type 0 where
  pub model : Str
  pub total : ℕ
  pub daily : ℕ
  pub weekly : ℕ
  pub monthly : ℕ
  pub yearly : ℕ

-- The order of texts: by code points, a prefix first.
unfoldable pub before : Str → Str → Bool
before [] [] = false
before [] (d ∷ t) = true
before (c ∷ s) [] = false
before (c ∷ s) (d ∷ t) = ltb c d || (nat_beq c d && before s t)

-- One more text for a sorted list without repetitions.
unfoldable pub insert : Str → List Str → List Str
unfolding before
insert s [] = s ∷ []
insert s (t ∷ ts) = if s == t then t ∷ ts else if before s t then s ∷ t ∷ ts else t ∷ insert s ts

unfoldable pub insert_keys : Labels → List Str → List Str
unfolding insert
insert_keys [] ms = ms
insert_keys ((k, n) ∷ labels) ms = insert k (insert_keys labels ms)

abbrev pub periods : List Str
periods = codes "total" ∷ codes "daily" ∷ codes "weekly" ∷ codes "monthly" ∷ codes "yearly" ∷ []

-- The set of the labels under these periods, sorted.
unfoldable pub models_of : List Str → Buckets → List Str
unfolding insert_keys
models_of [] bucket = []
models_of (p ∷ ps) bucket = insert_keys (labels_or (Dict.get p bucket)) (models_of ps bucket)

-- bucket.get(period, {}).get(model, 0)
unfoldable pub cell : Str → Str → Buckets → ℕ
cell period model bucket = count_or (Dict.get model (labels_or (Dict.get period bucket)))

unfoldable pub row_of : Buckets → Str → Row
unfolding cell
row_of bucket model = record {
  model = model;
  total = cell (codes "total") model bucket;
  daily = cell (codes "daily") model bucket;
  weekly = cell (codes "weekly") model bucket;
  monthly = cell (codes "monthly") model bucket;
  yearly = cell (codes "yearly") model bucket;
}

abbrev pub rows_or : List Row → List Row
rows_or [] =
    record { model = codes "docsifer"; total = 0; daily = 0; weekly = 0; monthly = 0; yearly = 0 }
    ∷ []
rows_or (r ∷ rs) = r ∷ rs

unfoldable pub df_from_bucket : Buckets → List Row
unfolding row_of models_of
df_from_bucket bucket = rows_or (map (row_of bucket) (models_of periods bucket))

-- The two tables, and whether the backend is said to be healthy.
unfoldable pub fetch_stats : Service → List Row × List Row × Bool
unfolding stats df_from_bucket
fetch_stats s =
    let (snap, healthy) = stats s in
    (df_from_bucket snap.access, df_from_bucket snap.tokens, healthy)
