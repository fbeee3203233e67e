-- ===== src/Tests/Reload.antt =====
-- A flush to a Redis server and a load from it, as docsifer/analytics/store.py does them.
use docsifer.Prelude.{
  ℕ, ◌+◌, ◌≡◌, refl, sym, true, false, ◌&&◌, Option, some, [], ◌∷◌, Str, str_eq, ◌==◌, ==_iff,
  if◌then◌else◌, arith, Bool-cases, inl, inr,
}
use docsifer.Prelude.Text.{codes}
use docsifer.Prelude.Dict
use docsifer.Prelude.Dict.{Dict}
use docsifer.Analytics.Counter.{Counter, Metric, access, tokens, at}
use docsifer.Analytics.Counter.Laws.{IsCounter}
use docsifer.Analytics.Upstash.{Redis, answered, key_of, apply_increments}
use docsifer.Analytics.Upstash.Loading.{Reads, Scanned, load_all, field, or_held, member}
use docsifer.Analytics.Upstash.Restart.{Describes, load_all-apply_increments}

abbrev day : Str
day = codes "2024-05-01"

abbrev label : Str
label = codes "docsifer"

abbrev counts : Counter
counts = record { access = (day, (label, 2) ∷ []) ∷ []; tokens = (day, (label, 70) ∷ []) ∷ [] }

counts-IsCounter : IsCounter counts
unfolding Dict.distinct Dict.has
counts-IsCounter = record { access_dict = (refl, (refl, tt)); tokens_dict = (refl, (refl, tt)) }

abbrev server : Redis
server = record {
  Hashes = Str → Str → ℕ;
  hget = λ k l s. s k l;
  hincrby = λ key l n s. λ k j. if key == k && l == j then s k j + n else s k j;
  hget-hincrby = λ key k l j n s. refl;
}

abbrev nothing : Str → Str → ℕ
nothing k l = 0

abbrev written : Str → Str → ℕ
written = (apply_increments server true answered [] counts nothing).0

abbrev day_hash : Str → Dict Str (Option ℕ)
day_hash key =
    if key_of access day == key
    then (label, some 2) ∷ []
    else if key_of tokens day == key
    then (label, some 70) ∷ []
    else []

-- One call of SCAN gives the one key of a metric.
abbrev reads : Reads
reads = record { scan = λ m cursor. (0, key_of m day ∷ []); hgetall = day_hash }

day_hash-IsDict : (key : Str) → Dict.IsDict (day_hash key)
unfolding Dict.distinct Dict.has
day_hash-IsDict key = ground arith

access_hash : (l : Str) → or_held (field l ((label, some 2) ∷ [])) 0 ≡ written (key_of access day) l
unfolding apply_increments docsifer.Analytics.Upstash.run_ops
access_hash l = elim (Bool-cases (label == l)) [ inl e ↦ rw e refl | inr e ↦ rw e refl ]

tokens_hash :
    (l : Str) → or_held (field l ((label, some 70) ∷ [])) 0 ≡ written (key_of tokens day) l
unfolding apply_increments docsifer.Analytics.Upstash.run_ops
tokens_hash l = elim (Bool-cases (label == l)) [ inl e ↦ rw e refl | inr e ↦ rw e refl ]

no_hash :
    (key l : Str)
    → (key_of access day == key) ≡ false
    → (key_of tokens day == key) ≡ false
    → written key l ≡ 0
unfolding apply_increments docsifer.Analytics.Upstash.run_ops
no_hash key l e f = rw (e, f) refl

day_hash-value : (key l : Str) → or_held (field l (day_hash key)) 0 ≡ written key l
day_hash-value key l = elim (Bool-cases (key_of access day == key)) [
  | inl e ↦ rw (← (==_iff (key_of access day) key).0 e) (access_hash l)
  | inr e ↦ elim (Bool-cases (key_of tokens day == key)) [
    | inl f ↦ rw (← (==_iff (key_of tokens day) key).0 f) (tokens_hash l)
    | inr f ↦ rw (e, f) (sym (no_hash key l e f))
  ]
]

day_key_only :
    (m : Metric) (p l : Str)
    → member (key_of m p) (key_of m day ∷ []) ≡ false
    → written (key_of m p) l ≡ 0
day_key_only access p l h = no_hash (key_of access p) l (ground arith) refl
day_key_only tokens p l h = no_hash (key_of tokens p) l refl (ground arith)

written-Describes : Describes server written reads
written-Describes = record {
  hash = day_hash-IsDict;
  value = day_hash-value;
  calls = λ m. 1;
  keys = λ m. key_of m day ∷ [];
  scanned = λ m. Scanned.last 0 (key_of m day ∷ []) refl;
  named = λ m. (record { period = day; named = refl }, tt);
  complete = day_key_only;
}

load_all-apply_increments_example :
    (read : Counter) × (load_all reads 2 ≡ some read)
    × ((m : Metric) (p l : Str) → at m p l read ≡ at m p l counts)
unfolding apply_increments written-Describes
load_all-apply_increments_example =
    load_all-apply_increments server reads true answered [] counts nothing written-Describes
      counts-IsCounter (λ key l. refl) refl
