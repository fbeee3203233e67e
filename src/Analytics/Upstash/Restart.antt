-- ===== src/Analytics/Upstash/Restart.antt =====
-- What `load_all` of docsifer/analytics/store.py reads of what `apply_increments` wrote.
use docsifer.Prelude.{
  ℕ, ◌+◌, ◌≡◌, refl, sym, subst, ◌∙◌, Bool, true, false, Option, none, some, List, [], ◌∷◌, Str,
  str_eq, ◌==◌, ==_iff, if◌then◌else◌, arith, All, Bool-cases, inl, inr,
}
use native.Mathlib.Nat.{add_comm}
use docsifer.Prelude.Dict
use docsifer.Analytics.Counter.{Counter, Metric, access, tokens, Buckets, at_bucket, at}
use docsifer.Analytics.Counter.Laws.{IsCounter}
use docsifer.Analytics.Upstash.{Redis, Exec, key_of, apply_increments}
use docsifer.Analytics.Upstash.Amounts.{hget-apply_increments}
use docsifer.Analytics.Upstash.Loading.{
  Reads, Scanned, load_keys, load_labels, last_piece, load_all, scan_loop, scan_loop-Scanned, field,
  or_held, member, load_labels-at, last_piece-key_of,
}

-- A key of the metric.
pub record IsKey (m : Metric) (key : Str) : Type 0 where
  pub period : Str
  pub named : key ≡ key_of m period

-- The two keys are one exactly if the periods are.
key_of-same : (m : Metric) (p q : Str) → (key_of m q == key_of m p) ≡ (q == p)
key_of-same access p q = refl
key_of-same tokens p q = refl

named_key :
    (reads : Reads) (m : Metric) (p q l : Str) (b : Buckets)
    → Dict.IsDict (reads.hgetall (key_of m q))
    → at_bucket p l (load_labels (last_piece 2 (key_of m q)) (reads.hgetall (key_of m q)) b) ≡ (
        if key_of m q == key_of m p
        then or_held (field l (reads.hgetall (key_of m p))) (at_bucket p l b)
        else at_bucket p l b)
named_key reads m p q l b d =
    let loaded = load_labels-at q p l (reads.hgetall (key_of m q)) b d in
    rw (last_piece-key_of m q, key_of-same m p q)
      (elim (Bool-cases (q == p)) [
        | inl e ↦ let same = (==_iff q p).0 e in rw e (loaded ∙ (rw e (rw same refl)))
        | inr e ↦ rw e (loaded ∙ rw e refl)
      ])

one_key :
    (reads : Reads) (m : Metric) (p l k : Str) (b : Buckets)
    → Dict.IsDict (reads.hgetall k)
    → IsKey m k
    → at_bucket p l (load_labels (last_piece 2 k) (reads.hgetall k) b) ≡ (
        if k == key_of m p
        then or_held (field l (reads.hgetall (key_of m p))) (at_bucket p l b)
        else at_bucket p l b)
one_key reads m p l k b d a =
    subst
      (λ k.
        Dict.IsDict (reads.hgetall k)
        → at_bucket p l (load_labels (last_piece 2 k) (reads.hgetall k) b) ≡ (
            if k == key_of m p
            then or_held (field l (reads.hgetall (key_of m p))) (at_bucket p l b)
            else at_bucket p l b))
      (sym a.named) (named_key reads m p a.period l b) d

or_held_idem : (v : Option ℕ) (n : ℕ) → or_held v (or_held v n) ≡ or_held v n
or_held_idem none n = refl
or_held_idem (some m) n = refl

at-load_keys :
    (reads : Reads) (m : Metric) (p l : Str) (ks : List Str) (b : Buckets)
    → ((key : Str) → Dict.IsDict (reads.hgetall key))
    → All (IsKey m) ks
    → at_bucket p l (load_keys reads ks b) ≡ (
        if member (key_of m p) ks
        then or_held (field l (reads.hgetall (key_of m p))) (at_bucket p l b)
        else at_bucket p l b)
unfolding load_keys
at-load_keys reads m p l [] b d a = refl
at-load_keys reads m p l (k ∷ ks) b d a =
    let one = one_key reads m p l k b (d k) a.0 in
    at-load_keys reads m p l ks (load_labels (last_piece 2 k) (reads.hgetall k) b) d a.1
    ∙ (elim (Bool-cases (k == key_of m p)) [
      | inl e ↦ elim (Bool-cases (member (key_of m p) ks)) [
        | inl f ↦
            rw (e, f, one)
              (rw e (or_held_idem (field l (reads.hgetall (key_of m p))) (at_bucket p l b)))
        | inr f ↦ rw (e, f, one) (rw e refl)
      ]
      | inr e ↦ elim (Bool-cases (member (key_of m p) ks)) [
        | inl f ↦ rw (e, f, one) (rw e refl)
        | inr f ↦ rw (e, f, one) (rw e refl)
      ]
    ])

-- What SCAN and HGETALL give of a server that nobody else writes to: each key of a metric is
-- scanned, perhaps more than once, and a hash is read as `hget` reads it.
pub record Describes (redis : Redis) (s : redis.Hashes) (reads : Reads) : Type 0 where
  pub hash : (key : Str) → Dict.IsDict (reads.hgetall key)
  pub value : (key l : Str) → or_held (field l (reads.hgetall key)) 0 ≡ redis.hget key l s
  pub calls : Metric → ℕ
  pub keys : Metric → List Str
  pub scanned : (m : Metric) → Scanned reads m (calls m) 0 (keys m)
  pub named : (m : Metric) → All (IsKey m) (keys m)
  pub complete :
      (m : Metric) (p l : Str)
      → member (key_of m p) (keys m) ≡ false
      → redis.hget (key_of m p) l s ≡ 0

at_bucket-nil : (p l : Str) → at_bucket p l [] ≡ 0
unfolding at_bucket Dict.get
at_bucket-nil p l = refl

both_loaded :
    (reads : Reads) (fuel : ℕ) (a t : Buckets)
    → scan_loop reads fuel access 0 [] ≡ some a
    → scan_loop reads fuel tokens 0 [] ≡ some t
    → load_all reads fuel ≡ some (record { access = a; tokens = t })
unfolding load_all
both_loaded reads fuel a t h k = rw (h, load_all) (rw k refl)

module _ (redis : Redis) (s : redis.Hashes) (reads : Reads) (d : Describes redis s reads) where
  loaded-hget :
      (m : Metric) (p l : Str)
      → at_bucket p l (load_keys reads (d.keys m) []) ≡ redis.hget (key_of m p) l s
  loaded-hget m p l = elim (Bool-cases (member (key_of m p) (d.keys m))) [
    | inl e ↦
        at-load_keys reads m p l (d.keys m) [] d.hash (d.named m)
        ∙ rw (e, at_bucket-nil p l) (d.value (key_of m p) l)
    | inr e ↦
        at-load_keys reads m p l (d.keys m) [] d.hash (d.named m)
        ∙ rw e (at_bucket-nil p l ∙ sym (d.complete m p l e))
  ]

  -- The counter that is loaded.
  abbrev loaded : Counter
  loaded = record {
    access = load_keys reads (d.keys access) [];
    tokens = load_keys reads (d.keys tokens) [];
  }

  load_all-loaded : load_all reads (d.calls access + d.calls tokens) ≡ some loaded
  load_all-loaded =
      both_loaded reads (d.calls access + d.calls tokens) _ _
        (scan_loop-Scanned reads access (d.calls access) 0 (d.keys access) (d.calls tokens) []
          (d.scanned access))
        (rw (add_comm (d.calls access) (d.calls tokens)) (
          scan_loop-Scanned reads tokens (d.calls tokens) 0 (d.keys tokens) (d.calls access) []
            (d.scanned tokens)))

  at-loaded : (m : Metric) (p l : Str) → at m p l loaded ≡ redis.hget (key_of m p) l s
  at-loaded access p l = loaded-hget access p l
  at-loaded tokens p l = loaded-hget tokens p l

-- What was written is read: if a flush to an empty server returns, and SCAN ends and gives every
-- key, then a load, in as many calls of SCAN as the server asks for, gives each count of the payload
-- back, under its metric, period and label, and 0 for all else.
pub load_all-apply_increments :
    (redis : Redis) (reads : Reads) (has_pipeline : Bool) (e : Exec) (bs : List Bool) (c : Counter)
    (empty : redis.Hashes)
    (d : Describes redis (apply_increments redis has_pipeline e bs c empty).0 reads)
    → IsCounter c
    → ((key l : Str) → redis.hget key l empty ≡ 0)
    → (apply_increments redis has_pipeline e bs c empty).1 ≡ true
    → (read : Counter) × (load_all reads (d.calls access + d.calls tokens) ≡ some read)
      × ((m : Metric) (p l : Str) → at m p l read ≡ at m p l c)
load_all-apply_increments redis reads has_pipeline e bs c empty d proper none_held h =
    let after = (apply_increments redis has_pipeline e bs c empty).0 in
    (
      loaded redis after reads d,
      load_all-loaded redis after reads d,
      λ m p l.
          at-loaded redis after reads d m p l
          ∙ omega (
            arith,
            hget-apply_increments redis has_pipeline e bs c empty m p l proper h,
            none_held (key_of m p) l,
          ),
    )
