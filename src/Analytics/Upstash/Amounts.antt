-- ===== src/Analytics/Upstash/Amounts.antt =====
-- What a flush of `UpstashStore` of docsifer/analytics/store.py leaves on the server.
use docsifer.Prelude.{
  ℕ, ◌+◌, ◌≡◌, refl, ap, sym, ◌∙◌, Bool, true, false, ◌&&◌, List, [], ◌∷◌, ◌++◌, Str, str_eq, ◌==◌,
  ==_iff, arith, if◌then◌else◌,
}
use docsifer.Prelude.Dict
use docsifer.Analytics.Counter.{
  Counter, Labels, Buckets, Metric, access, tokens, at, at_bucket, count_or,
}
use docsifer.Analytics.Counter.Laws.{IsBuckets, IsCounter, at-cons, IsDict-tail}
use docsifer.Analytics.Upstash.{
  Redis, Op, key_of, label_ops, bucket_ops, ops_of, run_ops, Exec, answered, refused, lost,
  succeeded, all_succeed, gather, send, apply_increments,
}

-- What operations add to a field.
unfoldable pub owed : Str → Str → List Op → ℕ
owed k l [] = 0
owed k l (o ∷ os) =
    let rest = owed k l os in if o.key == k && o.label == l then rest + o.count else rest

owed-append : (k l : Str) (xs ys : List Op) → owed k l (xs ++ ys) ≡ owed k l xs + owed k l ys
unfolding owed
owed-append k l [] ys = omega arith
owed-append k l (o ∷ xs) ys = ground (arith, owed-append k l xs ys)

hget-run_ops :
    (redis : Redis) (k l : Str) (os : List Op) (s : redis.Hashes)
    → redis.hget k l (run_ops redis os s) ≡ redis.hget k l s + owed k l os
unfolding run_ops owed
hget-run_ops redis k l [] s = omega arith
hget-run_ops redis k l (o ∷ os) s = ground (
  arith,
  hget-run_ops redis k l os (redis.hincrby o.key o.label o.count s),
  redis.hget-hincrby o.key k o.label l o.count s,
)

owed-label_ops :
    (key k l : Str) (labels : Labels)
    → Dict.IsDict labels
    → owed k l (label_ops key labels) ≡ (if key == k then count_or (Dict.get l labels) else 0)
unfolding owed label_ops Dict.get Dict.distinct
owed-label_ops key k l [] h = ground arith
owed-label_ops key k l ((j, n) ∷ labels) h =
    ground (arith, owed-label_ops key k l labels, ==_iff j l, Dict.get_of_not-has j labels)

abbrev same : Metric → Metric → Bool
same access access = true
same tokens tokens = true
same _ _ = false

same-key_of : (m n : Metric) (p q : Str) → (key_of m p == key_of n q) ≡ (same m n && p == q)
same-key_of access access p q = refl
same-key_of access tokens p q = refl
same-key_of tokens access p q = refl
same-key_of tokens tokens p q = refl

owed-bucket_ops :
    (m n : Metric) (q l : Str) (b : Buckets)
    → IsBuckets b
    → owed (key_of n q) l (bucket_ops m b) ≡ (if same m n then at_bucket q l b else 0)
unfolding bucket_ops
owed-bucket_ops m n q l [] h = unfold owed at_bucket Dict.get in ground arith
owed-bucket_ops m n q l ((p, labels) ∷ b) (d, (first, rest)) = ground (
  arith,
  owed-append (key_of n q) l (label_ops (key_of m p) labels) (bucket_ops m b),
  owed-label_ops (key_of m p) (key_of n q) l labels first,
  same-key_of m n p q,
  owed-bucket_ops m n q l b (IsDict-tail p labels b d, rest),
  at-cons p labels b q l d,
)

owed-ops_of :
    (m : Metric) (p l : Str) (c : Counter)
    → IsCounter c
    → owed (key_of m p) l (ops_of c) ≡ at m p l c
unfolding ops_of
owed-ops_of access p l c h = ground (
  arith,
  owed-append (key_of access p) l (bucket_ops access c.access) (bucket_ops tokens c.tokens),
  owed-bucket_ops access access p l c.access h.access_dict,
  owed-bucket_ops tokens access p l c.tokens h.tokens_dict,
)
owed-ops_of tokens p l c h = ground (
  arith,
  owed-append (key_of tokens p) l (bucket_ops access c.access) (bucket_ops tokens c.tokens),
  owed-bucket_ops access tokens p l c.access h.access_dict,
  owed-bucket_ops tokens tokens p l c.tokens h.tokens_dict,
)

succeeded-all : (bs : List Bool) (os : List Op) → all_succeed bs os ≡ true → succeeded bs os ≡ os
succeeded-all bs [] h = refl
succeeded-all [] (o ∷ os) h = refl
succeeded-all (true ∷ bs) (o ∷ os) h = rw (succeeded-all bs os h) refl
succeeded-all (false ∷ bs) (o ∷ os) h = absurd (ground arith)

module _ (redis : Redis) where
  send-done :
      (has_pipeline : Bool) (e : Exec) (bs : List Bool) (os : List Op) (s : redis.Hashes)
      → (send redis has_pipeline e bs os s).1 ≡ true
      → (send redis has_pipeline e bs os s).0 ≡ run_ops redis os s
  unfolding run_ops gather
  send-done has_pipeline e bs [] s h = refl
  send-done true answered bs (o ∷ os) s h = refl
  send-done true refused bs (o ∷ os) s h = absurd (ground arith)
  send-done true lost bs (o ∷ os) s h = absurd (ground arith)
  send-done false e bs (o ∷ os) s h = rw (succeeded-all bs (o ∷ os) h) refl

  -- A flush that returns, by a pipeline or by single calls, has added every count of the payload,
  -- whose dicts have distinct keys, to its own field: metrics, periods and labels do not mix.
  pub hget-apply_increments :
      (has_pipeline : Bool) (e : Exec) (bs : List Bool) (c : Counter) (s : redis.Hashes)
      (m : Metric) (p l : Str)
      → IsCounter c
      → (apply_increments redis has_pipeline e bs c s).1 ≡ true
      → redis.hget (key_of m p) l (apply_increments redis has_pipeline e bs c s).0
        ≡ redis.hget (key_of m p) l s + at m p l c
  unfolding apply_increments
  hget-apply_increments has_pipeline e bs c s m p l d h =
      ap (redis.hget (key_of m p) l) (send-done has_pipeline e bs (ops_of c) s h)
      ∙ omega (arith, hget-run_ops redis (key_of m p) l (ops_of c) s, owed-ops_of m p l c d)

  send-lost :
      (bs : List Bool) (os : List Op) (s : redis.Hashes)
      → (send redis true lost bs os s).0 ≡ run_ops redis os s
  unfolding run_ops
  send-lost bs [] s = refl
  send-lost bs (o ∷ os) s = refl

  -- Where the server ran a pipeline but its answer was lost, the flush fails, and the service sends
  -- the payload again: once that returns, its counts have been added twice.
  pub apply_increments-again :
      (has_pipeline : Bool) (e : Exec) (bs : List Bool) (c : Counter) (s s' : redis.Hashes)
      (m : Metric) (p l : Str)
      → IsCounter c
      → apply_increments redis true lost [] c s ≡ (s', false)
      → (apply_increments redis has_pipeline e bs c s').1 ≡ true
      → redis.hget (key_of m p) l (apply_increments redis has_pipeline e bs c s').0
        ≡ redis.hget (key_of m p) l s + at m p l c + at m p l c
  apply_increments-again has_pipeline e bs c s s' m p l d before h =
      let ran : s' ≡ run_ops redis (ops_of c) s =
        sym (ap (λ x. x.0) before) ∙ (unfold apply_increments in send-lost [] (ops_of c) s) in
      omega (
        arith,
        hget-apply_increments has_pipeline e bs c s' m p l d h,
        ap (redis.hget (key_of m p) l) ran,
        hget-run_ops redis (key_of m p) l (ops_of c) s,
        owed-ops_of m p l c d,
      )
