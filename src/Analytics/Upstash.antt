-- ===== src/Analytics/Upstash.antt =====
-- The write half of `UpstashStore` of docsifer/analytics/store.py. The Redis server is a parameter:
-- hashes whose fields `HINCRBY` adds to.
pub mod Amounts
pub mod Loading
pub mod Restart
use docsifer.Prelude.{
  ℕ, ◌+◌, ◌≡◌, Bool, true, false, ◌&&◌, List, [], ◌∷◌, ◌++◌, Str, str_eq, ◌==◌, nat_beq,
  if◌then◌else◌,
}
use docsifer.Prelude.Text.{codes}
use docsifer.Analytics.Counter.{Counter, Labels, Buckets, Metric, access, tokens}

pub record Redis : Type 1 where
  pub Hashes : Type 0
  pub hget : Str → Str → Hashes → ℕ
  pub hincrby : Str → Str → ℕ → Hashes → Hashes
  pub hget-hincrby :
      (key k label l : Str) (n : ℕ) (s : Hashes)
      → hget k l (hincrby key label n s)
        ≡ (if key == k && label == l then hget k l s + n else hget k l s)

pub record Op : Type 0 where
  pub key : Str
  pub label : Str
  pub count : ℕ

-- f"{KEY_PREFIX}:{metric}:{period}"
abbrev pub key_of : Metric → Str → Str
key_of access period = codes "analytics:access:" ++ period
key_of tokens period = codes "analytics:tokens:" ++ period

unfoldable pub label_ops : Str → Labels → List Op
label_ops key [] = []
label_ops key ((label, n) ∷ labels) =
    let rest = label_ops key labels in
    if nat_beq n 0 then rest else record { key = key; label = label; count = n } ∷ rest

unfoldable pub bucket_ops : Metric → Buckets → List Op
unfolding label_ops
bucket_ops m [] = []
bucket_ops m ((period, labels) ∷ b) = label_ops (key_of m period) labels ++ bucket_ops m b

unfoldable pub ops_of : Counter → List Op
unfolding bucket_ops
ops_of c = bucket_ops access c.access ++ bucket_ops tokens c.tokens

-- How the server takes the pipeline: it runs all and answers, it runs none, or it runs all and the
-- answer is lost. The last two raise.
pub data Exec : Type 0 where
  answered refused lost : Exec

-- `gather` of single calls: each call succeeds or raises, as the list of flags says (a call past
-- its end succeeds), and the others run all the same.
abbrev pub succeeded : List Bool → List Op → List Op
succeeded bs [] = []
succeeded [] (o ∷ os) = o ∷ os
succeeded (true ∷ bs) (o ∷ os) = o ∷ succeeded bs os
succeeded (false ∷ bs) (o ∷ os) = succeeded bs os

abbrev pub all_succeed : List Bool → List Op → Bool
all_succeed bs [] = true
all_succeed [] (o ∷ os) = true
all_succeed (true ∷ bs) (o ∷ os) = all_succeed bs os
all_succeed (false ∷ bs) (o ∷ os) = false

module _ (redis : Redis) where
  unfoldable pub run_ops : List Op → redis.Hashes → redis.Hashes
  run_ops [] s = s
  run_ops (o ∷ os) s = run_ops os (redis.hincrby o.key o.label o.count s)

  abbrev pub exec : Exec → List Op → redis.Hashes → redis.Hashes × Bool
  exec answered os s = (run_ops os s, true)
  exec refused os s = (s, false)
  exec lost os s = (run_ops os s, false)

  unfoldable pub gather : List Bool → List Op → redis.Hashes → redis.Hashes × Bool
  unfolding run_ops
  gather bs os s = (run_ops (succeeded bs os) s, all_succeed bs os)

  -- With no operation nothing is sent.
  abbrev pub send : Bool → Exec → List Bool → List Op → redis.Hashes → redis.Hashes × Bool
  send has_pipeline e bs [] s = (s, true)
  send has_pipeline e bs (o ∷ os) s =
      if has_pipeline then exec e (o ∷ os) s else gather bs (o ∷ os) s

  -- The arguments say whether the client has pipelines, how the server takes one, and how the
  -- single calls go.
  unfoldable pub apply_increments :
      Bool → Exec → List Bool → Counter → redis.Hashes → redis.Hashes × Bool
  unfolding ops_of
  apply_increments has_pipeline e bs c s = send has_pipeline e bs (ops_of c) s
