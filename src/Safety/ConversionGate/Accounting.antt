-- ===== src/Safety/ConversionGate/Accounting.antt =====
-- ConversionGate: the test for a full queue, the counters and the semaphore of
-- docsifer/safety/conversion_gate.py agree, operation by operation.
use docsifer.Prelude.{ℕ, ◌+◌, ◌-◌, ◌≤◌, ◌<◌, ◌≡◌, ◌↔◌, ◌⊎◌, Bool, true, some, arith}
use docsifer.Safety.ConversionGate.{Gate, full, Entry, started, enter, resume, cancel, leave}
use docsifer.Safety.Semaphore.{flag, pending, woken, take}
use docsifer.Safety.Semaphore.Turns.{
  wait-counts, is_locked, not-locked, release-counts, withdraw-resumed, withdraw-cancelled,
}

-- The counters, the semaphore and the number of tasks in the body, under the two limits.
pub record Balanced (g : Gate) (running : ℕ) : Type 0 where
  pub inflight : g.inflight ≡ running
  pub waiting : g.waiting ≡ pending g.semaphore.waiters + woken g.semaphore.waiters
  pub turns : g.semaphore.value + woken g.semaphore.waiters + running ≡ g.max_concurrent
  pub limit : g.inflight + g.waiting ≤ g.max_concurrent + g.max_queue
  pub no_lost_turn :
      (pending g.semaphore.waiters ≡ 0) ⊎ (0 < woken g.semaphore.waiters) ⊎ (g.semaphore.value ≡ 0)

-- The double test of the code is one bound on the tasks that run or wait.
pub full_iff :
    (g : Gate) → (full g ≡ true) ↔ (g.max_concurrent + g.max_queue ≤ g.inflight + g.waiting)
unfolding full
full_iff g = ground arith

abbrev pub body : Entry → ℕ → ℕ
body started n = n + 1
body _ n = n

pub enter-Balanced :
    (t : ℕ) (g : Gate) (n : ℕ) → Balanced g n → Balanced (enter t g).0 (body (enter t g).1 n)
unfolding enter take
enter-Balanced t g n v =
    ground (arith, is_locked g.semaphore, not-locked g.semaphore, wait-counts t g.semaphore)

pub resume-Balanced :
    (t : ℕ) (g : Gate) (n : ℕ)
    → flag t g.semaphore.waiters ≡ some true
    → Balanced g n
    → Balanced (resume t g) (n + 1)
unfolding resume
resume-Balanced t g n h v = ground (arith, withdraw-resumed t g.semaphore h)

pub cancel-Balanced :
    (t : ℕ) (b : Bool) (g : Gate) (n : ℕ)
    → flag t g.semaphore.waiters ≡ some b
    → Balanced g n
    → Balanced (cancel t g) n
unfolding cancel
cancel-Balanced t b g n h v = ground (arith, withdraw-cancelled t b g.semaphore h)

pub leave-Balanced : (g : Gate) (n : ℕ) → 0 < n → Balanced g n → Balanced (leave g) (n - 1)
unfolding leave
leave-Balanced g n h v = ground (arith, release-counts g.semaphore)
