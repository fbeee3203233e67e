-- ===== src/Ui/Tables/Models.antt =====
-- Which rows `_df_from_bucket` of docsifer/ui/gradio_app.py makes, and in what order.
use docsifer.Prelude.{
  ◌≡◌, refl, ap, ◌∙◌, arith, Bool, true, false, ◌||◌, ◌&&◌, List, [], ◌∷◌, map, Str, str_eq, ◌==◌,
  ==_iff,
}
use docsifer.Prelude.Dict
use docsifer.Analytics.Counter.{Labels, Buckets, labels_or}
use docsifer.Ui.Tables.{
  row_of, models_of, insert, insert_keys, before, periods, rows_or, df_from_bucket,
}

abbrev pub member : Str → List Str → Bool
member m [] = false
member m (k ∷ ks) = k == m || member m ks

-- In order, each text once.
abbrev pub sorted : List Str → Bool
sorted [] = true
sorted (s ∷ []) = true
sorted (s ∷ t ∷ ts) = before s t && sorted (t ∷ ts)

before_total : (s t : Str) → before s t ≡ false → (s == t) ≡ false → before t s ≡ true
unfolding before
before_total [] [] h k = absurd (ground arith)
before_total [] (d ∷ t) h k = absurd (ground arith)
before_total (c ∷ s) [] h k = refl
before_total (c ∷ s) (d ∷ t) h k = ground (arith, before_total s t)

insert-sorted : (s : Str) (ts : List Str) → sorted ts ≡ true → sorted (insert s ts) ≡ true
unfolding insert
insert-sorted s [] h = refl
insert-sorted s (t ∷ []) h = ground (arith, before_total s t)
insert-sorted s (t ∷ u ∷ ts) h = ground (arith, before_total s t, insert-sorted s (u ∷ ts))

member-insert : (m s : Str) (ts : List Str) → member m (insert s ts) ≡ (s == m || member m ts)
unfolding insert
member-insert m s [] = refl
member-insert m s (t ∷ ts) =
    ground (arith, ==_iff s t, ==_iff t m, ==_iff s m, member-insert m s ts)

insert_keys-sorted :
    (l : Labels) (ts : List Str) → sorted ts ≡ true → sorted (insert_keys l ts) ≡ true
unfolding insert_keys
insert_keys-sorted [] ts h = h
insert_keys-sorted ((k, n) ∷ l) ts h = insert-sorted k _ (insert_keys-sorted l ts h)

member-insert_keys :
    (m : Str) (l : Labels) (ts : List Str)
    → member m (insert_keys l ts) ≡ (Dict.has m l || member m ts)
unfolding insert_keys Dict.has
member-insert_keys m [] ts = refl
member-insert_keys m ((k, n) ∷ l) ts =
    member-insert m k (insert_keys l ts) ∙ ground (arith, member-insert_keys m l ts)

-- Some of the periods has the label.
abbrev pub labelled : Str → List Str → Buckets → Bool
labelled m [] b = false
labelled m (p ∷ ps) b = Dict.has m (labels_or (Dict.get p b)) || labelled m ps b

member-models_of :
    (m : Str) (ps : List Str) (b : Buckets) → member m (models_of ps b) ≡ labelled m ps b
unfolding models_of
member-models_of m [] b = refl
member-models_of m (p ∷ ps) b =
    member-insert_keys m (labels_or (Dict.get p b)) (models_of ps b)
    ∙ rw (member-models_of m ps b) refl

models_of-sorted : (ps : List Str) (b : Buckets) → sorted (models_of ps b) ≡ true
unfolding models_of
models_of-sorted [] b = refl
models_of-sorted (p ∷ ps) b =
    insert_keys-sorted (labels_or (Dict.get p b)) _ (models_of-sorted ps b)

models-rows : (b : Buckets) (ms : List Str) → map (λ r. r.model) (map (row_of b) ms) ≡ ms
unfolding row_of
models-rows b [] = refl
models-rows b (m ∷ ms) = rw (models-rows b ms) refl

table-sorted :
    (b : Buckets) (ms : List Str)
    → sorted ms ≡ true
    → sorted (map (λ r. r.model) (rows_or (map (row_of b) ms))) ≡ true
table-sorted b [] h = refl
table-sorted b (m ∷ ms) h = ap sorted (models-rows b (m ∷ ms)) ∙ h

table-models :
    (b : Buckets) (k : Str) (ms : List Str)
    → member k ms ≡ true
    → map (λ r. r.model) (rows_or (map (row_of b) ms)) ≡ ms
table-models b k [] h = absurd (ground arith)
table-models b k (m ∷ ms) h = models-rows b (m ∷ ms)

-- If any of the five periods has a label, the rows of the table are in strict order of their labels,
-- and these are exactly the labels that one of the periods has.
pub df_from_bucket-labels :
    (b : Buckets) (m k : Str)
    → labelled k periods b ≡ true
    → (sorted (map (λ r. r.model) (df_from_bucket b)) ≡ true)
      × (member m (map (λ r. r.model) (df_from_bucket b)) ≡ labelled m periods b)
unfolding df_from_bucket
df_from_bucket-labels b m k h =
    let some_model = member-models_of k periods b ∙ h in
    (
      table-sorted b (models_of periods b) (models_of-sorted periods b),
      ap (member m) (table-models b k (models_of periods b) some_model)
          ∙ member-models_of m periods b,
    )
