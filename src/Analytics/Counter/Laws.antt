-- ===== src/Analytics/Counter/Laws.antt =====
-- How the loops over a `NestedCounter` of docsifer/analytics change what it says.
use docsifer.Prelude.{
  ℕ, ◌+◌, ◌≡◌, refl, false, ◌&&◌, [], ◌∷◌, Str, str_eq, ◌==◌, ==_iff, All, arith, if◌then◌else◌,
  Bool-cases, inl, inr,
}
use docsifer.Prelude.Dict
use docsifer.Prelude.Dict.{Dict, IsDict, get-put, put-IsDict, get_of_not-has}
use docsifer.Analytics.Counter.{
  Labels, Buckets, Counter, Metric, access, tokens, empty_counter, count_or, labels_or, add_label,
  bump, merge_labels, merge_buckets, merge, has_pending, any_label, any_bucket, at_bucket, at,
}

-- One addition changes one count.
pub at-bump :
    (p l : Str) (n : ℕ) (b : Buckets) (q k : Str)
    → at_bucket q k (bump p l n b)
      ≡ (if p == q && l == k then at_bucket q k b + n else at_bucket q k b)
unfolding at_bucket bump
at-bump p l n b q k =
    let m = labels_or (Dict.get p b) in
    ground (
      arith,
      ==_iff p q,
      ==_iff l k,
      get-put p q (add_label l n m) b,
      get-put l k (count_or (Dict.get l m) + n) m,
    )

-- The dicts are dicts at both depths.
abbrev pub IsBuckets : Buckets → Type 0
IsBuckets b = IsDict b × All (λ (e : Str × Labels). IsDict e.1) b

at-merge_labels :
    (p : Str) (labels : Labels) (b : Buckets) (q k : Str)
    → IsDict labels
    → at_bucket q k (merge_labels p labels b)
      ≡ (if p == q then at_bucket q k b + count_or (Dict.get k labels) else at_bucket q k b)
unfolding merge_labels Dict.get Dict.distinct
at-merge_labels p [] b q k h = ground arith
at-merge_labels p ((l, n) ∷ labels) b q k h = ground (
  arith,
  at-merge_labels p labels (bump p l n b) q k,
  at-bump p l n b q k,
  ==_iff l k,
  get_of_not-has l labels,
)

pub at-cons :
    (p : Str) (labels : Labels) (b : Buckets) (q k : Str)
    → IsDict ((p, labels) ∷ b)
    → at_bucket q k ((p, labels) ∷ b)
      ≡ (if p == q then count_or (Dict.get k labels) else 0) + at_bucket q k b
unfolding at_bucket Dict.get Dict.distinct
at-cons p labels b q k h = ground (arith, ==_iff p q, get_of_not-has p b)

pub IsDict-tail : (p : Str) (labels : Labels) (b : Buckets) → IsDict ((p, labels) ∷ b) → IsDict b
unfolding Dict.distinct
IsDict-tail p labels b h = ground arith

-- Merging adds the counts up, for every period and label.
pub at-merge_buckets :
    (src b : Buckets) (q k : Str)
    → IsBuckets src
    → at_bucket q k (merge_buckets src b) ≡ at_bucket q k b + at_bucket q k src
unfolding merge_buckets
at-merge_buckets [] b q k h = unfold at_bucket Dict.get in omega arith
at-merge_buckets ((p, labels) ∷ src) b q k (d, (first, rest)) = ground (
  arith,
  at-merge_buckets src (merge_labels p labels b) q k (IsDict-tail p labels src d, rest),
  at-merge_labels p labels b q k first,
  at-cons p labels src q k d,
)

add_label-IsDict : (l : Str) (n : ℕ) (m : Labels) → IsDict m → IsDict (add_label l n m)
unfolding add_label
add_label-IsDict l n m h = put-IsDict l (count_or (Dict.get l m) + n) m h

Inner : Buckets → Type 0
Inner b = All (λ (e : Str × Labels). IsDict e.1) b

get-Inner : (p : Str) (b : Buckets) → Inner b → IsDict (labels_or (Dict.get p b))
unfolding Inner Dict.get
get-Inner p [] h = unfold Dict.distinct in refl
get-Inner p ((q, m) ∷ b) h = ground (arith, get-Inner p b h.1)

put-Inner : (p : Str) (m : Labels) (b : Buckets) → IsDict m → Inner b → Inner (Dict.put p m b)
unfolding Inner Dict.put
put-Inner p m [] d h = (d, tt)
put-Inner p m ((q, n) ∷ b) d h = elim (Bool-cases (q == p)) [
  | inl e ↦ rw e (d, h.1)
  | inr e ↦ rw e (h.0, put-Inner p m b d h.1)
]

pub bump-IsBuckets : (p l : Str) (n : ℕ) (b : Buckets) → IsBuckets b → IsBuckets (bump p l n b)
unfolding bump Inner
bump-IsBuckets p l n b (d, h) =
    let m = add_label l n (labels_or (Dict.get p b)) in
    (put-IsDict p m b d, put-Inner p m b (add_label-IsDict l n _ (get-Inner p b h)) h)

merge_labels-IsBuckets :
    (p : Str) (labels : Labels) (b : Buckets) → IsBuckets b → IsBuckets (merge_labels p labels b)
unfolding merge_labels
merge_labels-IsBuckets p [] b h = h
merge_labels-IsBuckets p ((l, n) ∷ labels) b h =
    merge_labels-IsBuckets p labels (bump p l n b) (bump-IsBuckets p l n b h)

pub merge_buckets-IsBuckets : (src b : Buckets) → IsBuckets b → IsBuckets (merge_buckets src b)
unfolding merge_buckets
merge_buckets-IsBuckets [] b h = h
merge_buckets-IsBuckets ((p, labels) ∷ src) b h =
    merge_buckets-IsBuckets src (merge_labels p labels b) (merge_labels-IsBuckets p labels b h)

-- A well-formed counter, metric by metric.
pub record IsCounter (c : Counter) : Type 0 where
  pub access_dict : IsBuckets c.access
  pub tokens_dict : IsBuckets c.tokens

pub IsCounter-empty : IsCounter empty_counter
unfolding empty_counter Dict.distinct
IsCounter-empty = record { access_dict = (refl, tt); tokens_dict = (refl, tt) }

pub at-empty : (m : Metric) (p l : Str) → at m p l empty_counter ≡ 0
unfolding empty_counter at_bucket Dict.get
at-empty access p l = refl
at-empty tokens p l = refl

-- Merging a counter, whose dicts have distinct keys, into another adds the counts up, for every
-- metric, period and label.
pub at-merge :
    (src c : Counter) (m : Metric) (p l : Str)
    → IsCounter src
    → at m p l (merge src c) ≡ at m p l c + at m p l src
unfolding merge
at-merge src c access p l h = at-merge_buckets src.access c.access p l h.access_dict
at-merge src c tokens p l h = at-merge_buckets src.tokens c.tokens p l h.tokens_dict

pub merge-IsCounter : (src c : Counter) → IsCounter c → IsCounter (merge src c)
unfolding merge
merge-IsCounter src c h = record {
  access_dict = merge_buckets-IsBuckets src.access c.access h.access_dict;
  tokens_dict = merge_buckets-IsBuckets src.tokens c.tokens h.tokens_dict;
}

none-label : (m : Labels) (l : Str) → any_label m ≡ false → count_or (Dict.get l m) ≡ 0
unfolding any_label Dict.get
none-label [] l h = refl
none-label ((k, n) ∷ m) l h = ground (arith, none-label m l)

none-bucket : (b : Buckets) (p l : Str) → any_bucket b ≡ false → at_bucket p l b ≡ 0
unfolding any_bucket at_bucket Dict.get
none-bucket [] p l h = refl
none-bucket ((q, m) ∷ b) p l h = ground (arith, none-label m l, none-bucket b p l)

-- `_has_pending` is false only of a counter that is 0 everywhere.
pub at-not_pending : (c : Counter) (m : Metric) (p l : Str) → has_pending c ≡ false → at m p l c ≡ 0
unfolding has_pending
at-not_pending c access p l h = none-bucket c.access p l (ground arith)
at-not_pending c tokens p l h = none-bucket c.tokens p l (ground arith)
