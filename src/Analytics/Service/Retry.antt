-- ===== src/Analytics/Service/Retry.antt =====
-- The waits of `_sync_loop` of docsifer/analytics/service.py, in whole seconds. A round is a call
-- of `_flush_once` that returns (`true`) or raises.
use docsifer.Prelude.{
  ℕ, zero, suc, ◌+◌, ◌*◌, ◌^◌, ◌≡◌, refl, min, Bool, true, false, Option, none, some, arith, ltb,
  if◌then◌else◌,
}
use native.Mathlib.Nat.{pow-suc}
use native.Mathlib.Numerals.{towards_suc}

pub record Backoff : Type 0 where
  pub retries : ℕ
  pub backoff : ℕ

abbrev pub fresh : Backoff
fresh = record { retries = 0; backoff = 1 }

-- The variables after a round, and the extra sleep if there is one.
pub round : ℕ → Bool → Backoff → Backoff × Option ℕ
round max_retries true b = (fresh, none)
round max_retries false b =
    if ltb b.retries max_retries
    then (record { retries = b.retries + 1; backoff = b.backoff * 2 }, some (min b.backoff 60))
    else (b, none)

-- The variables after `n` rounds in a row that raise.
pub fail_times : ℕ → ℕ → Backoff → Backoff
fail_times max_retries zero b = b
fail_times max_retries (suc n) b = (round max_retries false (fail_times max_retries n b)).0

pow_step : (r : ℕ) → 2 ^ (r + 1) ≡ 2 ^ r * 2
pow_step r = simp towards_suc (omega (arith, pow-suc 2 r))

record Doubled (max_retries n : ℕ) (b : Backoff) : Type 0 where
  retries : b.retries ≡ min n max_retries
  backoff : b.backoff ≡ 2 ^ b.retries

round-Doubled :
    (max_retries n : ℕ) (b : Backoff)
    → Doubled max_retries n b
    → Doubled max_retries (suc n) (round max_retries false b).0
unfolding round
round-Doubled max_retries n b d = ground (arith, pow_step b.retries)

round-sleeps :
    (max_retries n : ℕ) (b : Backoff)
    → Doubled max_retries n b
    → (round max_retries false b).1 ≡ (if ltb n max_retries then some (min (2 ^ n) 60) else none)
unfolding round
round-sleeps max_retries n b d = ground arith

fail_times-Doubled : (max_retries n : ℕ) → Doubled max_retries n (fail_times max_retries n fresh)
unfolding fail_times
fail_times-Doubled max_retries zero = record { retries = omega arith; backoff = refl }
fail_times-Doubled max_retries (suc n) =
    round-Doubled max_retries n (fail_times max_retries n fresh) (fail_times-Doubled max_retries n)

-- After `n` failures in a row, the next one sleeps for `2 ^ n` seconds, a minute at most; from the
-- `max_retries`-th on there is no extra sleep. A success starts over.
pub round-sleep :
    (max_retries n : ℕ)
    → let b = fail_times max_retries n fresh in
      ((round max_retries false b).1 ≡ (if ltb n max_retries then some (min (2 ^ n) 60) else none))
      × ((round max_retries true b).0 ≡ fresh)
round-sleep max_retries n = (
  round-sleeps max_retries n (fail_times max_retries n fresh) (fail_times-Doubled max_retries n),
  unfold round in refl,
)
