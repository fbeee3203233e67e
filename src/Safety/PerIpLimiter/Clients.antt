-- ===== src/Safety/PerIpLimiter/Clients.antt =====
-- PerIPLimiter under any interleaving of requests: docsifer/safety/per_ip_limiter.py.
use docsifer.Prelude.{
  ℕ, ◌+◌, ◌-◌, ◌≤◌, ◌<◌, max, ◌≡◌, refl, List, [], ◌∷◌, arith, Str, str_eq, ◌==◌, ==_iff,
  if◌then◌else◌,
}
use docsifer.Prelude.Dict
use docsifer.Prelude.Dict.{IsDict}
use docsifer.Safety.PerIpLimiter.{Limiter, init, enter, leave}
use docsifer.Safety.PerIpLimiter.Slots.{
  active, enter-active, enter-IsDict, leave-active, leave-IsDict,
}

-- The limiter, and the address of each request that is between `_enter` and `_leave`.
pub record Clients : Type 0 where
  pub limiter : Limiter
  pub holders : List Str

unfoldable pub count : Str → List Str → ℕ
count j [] = 0
count j (ip ∷ ips) = if ip == j then count j ips + 1 else count j ips

unfoldable pub drop_one : Str → List Str → List Str
drop_one ip [] = []
drop_one ip (j ∷ js) = if j == ip then js else j ∷ drop_one ip js

pub data Step (s : Clients) : Clients → Type 0 where
  enters :
      (ip : Str) (now : ℕ)
      → Step s (record {
        limiter = (enter ip now s.limiter).0;
        holders = if (enter ip now s.limiter).1 then ip ∷ s.holders else s.holders;
      })
  leaves :
      (ip : Str) (now : ℕ)
      → 0 < count ip s.holders
      → Step s (record { limiter = leave ip now s.limiter; holders = drop_one ip s.holders })

pub data Reach (s : Clients) : Clients → Type 0 where
  here : Reach s s
  next : {t u : Clients} → Reach s t → Step t u → Reach s u

pub count-drop_one :
    (ip j : Str) (ips : List Str)
    → count j (drop_one ip ips) ≡ (if ip == j then count j ips - 1 else count j ips)
unfolding count drop_one
count-drop_one ip j [] = ground arith
count-drop_one ip j (k ∷ ips) =
    ground (arith, ==_iff ip j, ==_iff k ip, ==_iff k j, count-drop_one ip j ips)

record Counts (cap : ℕ) (s : Clients) : Type 0 where
  dict : IsDict s.limiter.slots
  max_per_ip : s.limiter.max_per_ip ≡ cap
  counted : (j : Str) → active s.limiter j ≡ count j s.holders
  limit : (j : Str) → count j s.holders ≤ cap

Step-Counts : {cap : ℕ} {s t : Clients} → Step s t → Counts cap s → Counts cap t
Step-Counts {cap} {s} (enters ip now) c = record {
  dict = (enter-IsDict ip now s.limiter c.dict).0;
  max_per_ip = ground (arith, enter-IsDict ip now s.limiter c.dict);
  counted = λ j.
      unfold count in
      ground (arith, enter-active ip j now s.limiter c.dict, c.counted j, ==_iff ip j);
  limit = λ j.
      unfold count in
      ground (
        arith,
        enter-active ip j now s.limiter c.dict,
        c.counted ip,
        c.counted j,
        c.limit j,
        ==_iff ip j,
      );
}
Step-Counts {cap} {s} (leaves ip now h) c = record {
  dict = (leave-IsDict ip now s.limiter c.dict).0;
  max_per_ip = ground (arith, leave-IsDict ip now s.limiter c.dict);
  counted = λ j.
      ground (arith, leave-active ip j now s.limiter, c.counted j, count-drop_one ip j s.holders);
  limit = λ j. ground (arith, count-drop_one ip j s.holders, c.limit j);
}

abbrev pub start : ℕ → ℕ → Clients
start max_per_ip idle_evict_sec = record { limiter = init max_per_ip idle_evict_sec; holders = [] }

start-Counts : (cap idle : ℕ) → Counts (max 1 cap) (start cap idle)
unfolding init count
start-Counts cap idle = record {
  dict = unfold Dict.distinct in refl;
  max_per_ip = refl;
  counted = λ j. unfold Dict.get in refl;
  limit = λ j. omega arith;
}

Reach-Counts : {cap : ℕ} {s t : Clients} → Counts cap s → Reach s t → Counts cap t
Reach-Counts c here = c
Reach-Counts c (next r st) = Step-Counts st (Reach-Counts c r)

-- However requests come and go, the limiter counts for each address exactly its running requests,
-- and they are at most `max(1, max_per_ip)`; evictions in between change nothing of this.
pub Reach-limit :
    (max_per_ip idle_evict_sec : ℕ) {t : Clients} (j : Str)
    → Reach (start max_per_ip idle_evict_sec) t
    → (active t.limiter j ≡ count j t.holders) × (count j t.holders ≤ max 1 max_per_ip)
Reach-limit max_per_ip idle_evict_sec j r =
    let c = Reach-Counts (start-Counts max_per_ip idle_evict_sec) r in (c.counted j, c.limit j)
