-- ===== src/Analytics/Service/Recording.antt =====
-- What `access` of docsifer/analytics/service.py adds to a counter.
use docsifer.Prelude.{ℕ, ◌+◌, ◌≡◌, List, [], ◌∷◌, Str, str_eq, ◌==◌, arith, if◌then◌else◌}
use docsifer.Analytics.Counter.{Counter, Metric, access, tokens, bump, at}
use docsifer.Analytics.Counter.Laws.{at-bump, bump-IsBuckets, IsCounter}
use docsifer.Analytics.Service.{record_all}

-- The sum of `w` over the keys that are `p`.
unfoldable pub owed : Str → List Str → ℕ → ℕ
owed p [] w = 0
owed p (q ∷ keys) w = if q == p then owed p keys w + w else owed p keys w

-- What one access is worth.
abbrev pub worth : Metric → ℕ → ℕ
worth access n = 1
worth tokens n = n

pub at-record_all :
    (keys : List Str) (label : Str) (n : ℕ) (c : Counter) (m : Metric) (p l : Str)
    → at m p l (record_all keys label n c)
      ≡ at m p l c + (if label == l then owed p keys (worth m n) else 0)
unfolding record_all owed
at-record_all [] label n c m p l = ground arith
at-record_all (q ∷ keys) label n c access p l =
    let c' : Counter = record {
      access = bump q label 1 c.access;
      tokens = bump q label n c.tokens;
    } in
    ground (arith, at-record_all keys label n c' access p l, at-bump q label 1 c.access p l)
at-record_all (q ∷ keys) label n c tokens p l =
    let c' : Counter = record {
      access = bump q label 1 c.access;
      tokens = bump q label n c.tokens;
    } in
    ground (arith, at-record_all keys label n c' tokens p l, at-bump q label n c.tokens p l)

pub record_all-IsCounter :
    (keys : List Str) (label : Str) (n : ℕ) (c : Counter)
    → IsCounter c
    → IsCounter (record_all keys label n c)
unfolding record_all
record_all-IsCounter [] label n c h = h
record_all-IsCounter (q ∷ keys) label n c h = record_all-IsCounter keys label n _ (record {
  access_dict = bump-IsBuckets q label 1 c.access h.access_dict;
  tokens_dict = bump-IsBuckets q label n c.tokens h.tokens_dict;
})
