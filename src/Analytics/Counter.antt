-- ===== src/Analytics/Counter.antt =====
-- `NestedCounter` of docsifer/analytics/store.py: metric, period, label, count. The dicts of each
-- metric are `defaultdict`s, so `c[metric][period][label] += n` makes what is missing.
pub mod Laws
use docsifer.Prelude.{
  ℕ, ◌+◌, Bool, true, false, ◌||◌, not, Option, none, some, List, [], ◌∷◌, Str, str_eq, nat_beq,
}
use docsifer.Prelude.Dict
use docsifer.Prelude.Dict.{Dict}

abbrev pub Labels : Type 0
Labels = Dict Str ℕ

abbrev pub Buckets : Type 0
Buckets = Dict Str Labels

pub record Counter : Type 0 where
  pub access : Buckets
  pub tokens : Buckets

pub data Metric : Type 0 where
  access tokens : Metric

abbrev pub bucket : Metric → Counter → Buckets
bucket access c = c.access
bucket tokens c = c.tokens

unfoldable pub empty_counter : Counter
empty_counter = record { access = []; tokens = [] }

abbrev pub count_or : Option ℕ → ℕ
count_or none = 0
count_or (some n) = n

abbrev pub labels_or : Option Labels → Labels
labels_or none = []
labels_or (some m) = m

-- labels[label] += n
unfoldable pub add_label : Str → ℕ → Labels → Labels
add_label label n labels = Dict.put label (count_or (Dict.get label labels) + n) labels

-- b[period][label] += n
unfoldable pub bump : Str → Str → ℕ → Buckets → Buckets
unfolding add_label
bump period label n b = Dict.put period (add_label label n (labels_or (Dict.get period b))) b

-- for label, count in labels.items(): b[period][label] += count
unfoldable pub merge_labels : Str → Labels → Buckets → Buckets
merge_labels period [] b = b
merge_labels period ((label, n) ∷ labels) b = merge_labels period labels (bump period label n b)

-- for period, labels in src.items(): ...
unfoldable pub merge_buckets : Buckets → Buckets → Buckets
merge_buckets [] b = b
merge_buckets ((period, labels) ∷ src) b = merge_buckets src (merge_labels period labels b)

-- for metric, periods in src.items(): ...
unfoldable pub merge : Counter → Counter → Counter
merge src c = record {
  access = merge_buckets src.access c.access;
  tokens = merge_buckets src.tokens c.tokens;
}

-- `_has_pending`
any_label : Labels → Bool
any_label [] = false
any_label ((label, n) ∷ labels) = not (nat_beq n 0) || any_label labels

any_bucket : Buckets → Bool
any_bucket [] = false
any_bucket ((period, labels) ∷ b) = any_label labels || any_bucket b

unfoldable pub has_pending : Counter → Bool
unfolding any_bucket any_label
has_pending c = any_bucket c.access || any_bucket c.tokens

-- What a counter says of a period and a label.
unfoldable pub at_bucket : Str → Str → Buckets → ℕ
at_bucket period label b = count_or (Dict.get label (labels_or (Dict.get period b)))

abbrev pub at : Metric → Str → Str → Counter → ℕ
at m period label c = at_bucket period label (bucket m c)
