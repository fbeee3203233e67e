-- ===== src/Analytics/Store.antt =====
-- docsifer/analytics/store.py: what the service asks of a store, and the two stores.
use docsifer.Prelude.{
  ℕ, ◌+◌, ◌≡◌, Bool, true, false, [], ◌∷◌, Str, str_eq, nat_beq, if◌then◌else◌, arith, ==_iff, ◌==◌,
}
use docsifer.Prelude.Dict
use docsifer.Analytics.Counter.{
  Counter, Metric, Labels, Buckets, access, tokens, empty_counter, bump, at, at_bucket, count_or,
}
use docsifer.Analytics.Counter.Laws.{IsCounter, at-bump, at-cons, IsDict-tail, IsBuckets}

-- `AnalyticsStore`: `apply_increments` takes a payload and says whether it returned (an exception
-- is `false`); `amount` is what the store holds. The laws are what an atomic store promises.
pub record AnalyticsStore : Type 1 where
  pub Contents : Type 0
  pub apply_increments : Counter → Contents → Contents × Bool
  pub amount : Contents → Metric → Str → Str → ℕ
  pub applied :
      (c : Counter) (s : Contents) (m : Metric) (p l : Str)
      → IsCounter c
      → (apply_increments c s).1 ≡ true
      → amount (apply_increments c s).0 m p l ≡ amount s m p l + at m p l c
  pub failed :
      (c : Counter) (s : Contents) (m : Metric) (p l : Str)
      → (apply_increments c s).1 ≡ false
      → amount (apply_increments c s).0 m p l ≡ amount s m p l

-- The loops of `InMemoryStore.apply_increments`: as the service's, but a zero count is skipped.
unfoldable pub store_labels : Str → Labels → Buckets → Buckets
store_labels period [] b = b
store_labels period ((label, n) ∷ labels) b =
    store_labels period labels (if nat_beq n 0 then b else bump period label n b)

unfoldable pub store_buckets : Buckets → Buckets → Buckets
store_buckets [] b = b
store_buckets ((period, labels) ∷ src) b = store_buckets src (store_labels period labels b)

-- It cannot fail.
unfoldable pub apply_in_memory : Counter → Counter → Counter × Bool
apply_in_memory increments held = (
  record {
    access = store_buckets increments.access held.access;
    tokens = store_buckets increments.tokens held.tokens;
  },
  true,
)

-- `load_all` of `InMemoryStore` gives an empty counter, whatever it holds.
unfoldable pub load_in_memory : Counter → Counter
load_in_memory held = empty_counter

at-store_labels :
    (p : Str) (labels : Labels) (b : Buckets) (q k : Str)
    → Dict.IsDict labels
    → at_bucket q k (store_labels p labels b)
      ≡ (if p == q then at_bucket q k b + count_or (Dict.get k labels) else at_bucket q k b)
unfolding store_labels Dict.get Dict.distinct
at-store_labels p [] b q k h = ground arith
at-store_labels p ((l, n) ∷ labels) b q k h = ground (
  arith,
  at-store_labels p labels (if nat_beq n 0 then b else bump p l n b) q k,
  at-bump p l n b q k,
  ==_iff l k,
  Dict.get_of_not-has l labels,
)

at-store_buckets :
    (src b : Buckets) (q k : Str)
    → IsBuckets src
    → at_bucket q k (store_buckets src b) ≡ at_bucket q k b + at_bucket q k src
unfolding store_buckets
at-store_buckets [] b q k h = unfold at_bucket Dict.get in omega arith
at-store_buckets ((p, labels) ∷ src) b q k (d, (first, rest)) = ground (
  arith,
  at-store_buckets src (store_labels p labels b) q k (IsDict-tail p labels src d, rest),
  at-store_labels p labels b q k first,
  at-cons p labels src q k d,
)

-- The in-memory store adds each payload, whose dicts have distinct keys, to what it holds, for
-- every metric, period and label.
pub at-apply_in_memory :
    (c held : Counter) (m : Metric) (p l : Str)
    → IsCounter c
    → at m p l (apply_in_memory c held).0 ≡ at m p l held + at m p l c
unfolding apply_in_memory
at-apply_in_memory c held access p l h = at-store_buckets c.access held.access p l h.access_dict
at-apply_in_memory c held tokens p l h = at-store_buckets c.tokens held.tokens p l h.tokens_dict

pub never_fails :
    (c held : Counter) (m : Metric) (p l : Str)
    → (apply_in_memory c held).1 ≡ false
    → at m p l (apply_in_memory c held).0 ≡ at m p l held
unfolding apply_in_memory
never_fails c held m p l h = cc

-- `InMemoryStore` is an atomic store.
abbrev pub in_memory_store : AnalyticsStore
in_memory_store = record {
  Contents = Counter;
  apply_increments = apply_in_memory;
  amount = λ held m p l. at m p l held;
  applied = λ c held m p l h _. at-apply_in_memory c held m p l h;
  failed = never_fails;
}
