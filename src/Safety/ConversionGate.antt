-- ===== src/Safety/ConversionGate.antt =====
-- docsifer/safety/conversion_gate.py. Every locked section is free of `await`, so the lock is never
-- contended and each stretch of code between two suspensions is one function here: `enter` up to
-- the wait for the semaphore, `resume` after it, `cancel` for a wait that is cancelled, and
-- `leave`. Negative settings are read as 0.
pub mod Interleaving
pub mod Accounting
use docsifer.Prelude.{
  ℕ, ◌+◌, ◌-◌, Bool, true, false, Option, none, some, List, [], ◌&&◌, leb, nat_beq, if◌then◌else◌,
}
use docsifer.Safety.Semaphore.{Semaphore, locked, take, wait, withdraw, release}

pub record Gate : Type 0 where
  pub semaphore : Semaphore
  pub max_concurrent : ℕ
  pub max_queue : ℕ
  pub waiting : ℕ
  pub inflight : ℕ

-- `__init__`: `none` is its `ValueError`.
unfoldable pub init : ℕ → ℕ → Option Gate
init max_concurrent max_queue =
    if nat_beq max_concurrent 0
    then none
    else some (record {
      semaphore = record { value = max_concurrent; waiters = [] };
      max_concurrent = max_concurrent;
      max_queue = max_queue;
      waiting = 0;
      inflight = 0;
    })

-- The test for `QueueFullError`.
unfoldable pub full : Gate → Bool
full g =
    let in_use = g.inflight + g.waiting in
    let queued = in_use - g.max_concurrent in leb g.max_queue queued && leb g.max_concurrent in_use

-- A task that asks is refused, starts at once, or waits.
pub data Entry : Type 0 where
  refused started queued : Entry

-- The section behind `semaphore.acquire()`.
unfoldable pub start : Gate → Gate
start g = record g { waiting = g.waiting - 1; inflight = g.inflight + 1 }

unfoldable pub enter : ℕ → Gate → Gate × Entry
unfolding full start
enter t g =
    if full g
    then (g, refused)
    else let g' = record g { waiting = g.waiting + 1 } in
      if locked g.semaphore
      then (record g' { semaphore = wait t g.semaphore }, queued)
      else (start (record g' { semaphore = take g.semaphore }), started)

-- A task whose turn has come goes on.
unfoldable pub resume : ℕ → Gate → Gate
unfolding start
resume t g = start (record g { semaphore = withdraw t false g.semaphore })

-- A waiting task is cancelled: a turn that it was given goes back, and `except BaseException` runs.
unfoldable pub cancel : ℕ → Gate → Gate
cancel t g = record g { semaphore = withdraw t true g.semaphore; waiting = g.waiting - 1 }

-- The `finally` behind the body.
unfoldable pub leave : Gate → Gate
leave g = record g { semaphore = release g.semaphore; inflight = g.inflight - 1 }
