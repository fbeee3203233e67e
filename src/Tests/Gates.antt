-- ===== src/Tests/Gates.antt =====
-- Runs of docsifer/safety/conversion_gate.py and circuit_breaker.py.
use docsifer.Prelude.{ℕ, ◌+◌, ◌≤◌, ◌≡◌, refl, true, false, some, [], ◌∷◌}
use docsifer.Safety.Semaphore.{pending, woken, locked, take, wait, release}
use docsifer.Safety.ConversionGate
use docsifer.Safety.ConversionGate.{Gate, enter, leave, refused, started, queued, full}
use docsifer.Safety.ConversionGate.Accounting.{body}
use docsifer.Safety.ConversionGate.Interleaving.{
  Tasks, enters, Reach, here, next, idle, Reach-limits,
}
use docsifer.Safety.CircuitBreaker
use docsifer.Safety.CircuitBreaker.{
  Breaker, state, closed, opened, raised, returned, call, admit, settle,
}
use docsifer.Safety.CircuitBreaker.States.{init-IsValid}
use docsifer.Safety.CircuitBreaker.Machine.{mode, step, call-step}

-- One place to run and one to wait: task 7 runs, task 8 waits.
abbrev empty_tasks : Tasks
empty_tasks = record { gate = idle 1 1; running = 0 }

abbrev one_task : Tasks
one_task = record { gate = (enter 7 (idle 1 1)).0; running = body (enter 7 (idle 1 1)).1 0 }

abbrev two_tasks : Tasks
two_tasks = record {
  gate = (enter 8 one_task.gate).0;
  running = body (enter 8 one_task.gate).1 one_task.running;
}

abbrev back_again : Tasks
back_again = record { gate = leave one_task.gate; running = 0 }

built : ConversionGate.init 1 1 ≡ some (idle 1 1)
unfolding ConversionGate.init
built = refl

two-Reach : Reach empty_tasks two_tasks
two-Reach = next (next here (enters 7)) (enters 8)

-- A third task is refused, and what `leave` does hands the turn to task 8.
gate_runs :
    ((enter 9 two_tasks.gate).1 ≡ refused)
    × ((enter 7 (idle 1 1)).1 ≡ started)
    × ((enter 8 one_task.gate).1 ≡ queued)
    × ((leave two_tasks.gate).semaphore.waiters ≡ (8, true) ∷ [])
unfolding enter leave locked take release wait
gate_runs = (refl, refl, refl, refl)

Reach-limits_example :
    (1 ≤ 1)
    × (1 + 1 ≤ 1 + 1)
    × (two_tasks.gate.inflight ≡ 1)
    × (two_tasks.gate.waiting ≡ pending ((8, false) ∷ []) + woken ((8, false) ∷ []))
unfolding enter locked take wait
Reach-limits_example = Reach-limits 1 1 {g = idle 1 1} {t = two_tasks} built two-Reach

-- A breaker that one failure opens for a second.
abbrev frail : Breaker
frail = CircuitBreaker.init 1 1000

abbrev tripped_frail : Breaker
tripped_frail = (call {A = Unit {0}} {E = ℕ} 0 (raised 5) 100 frail).0

breaker_runs :
    (state tripped_frail ≡ opened)
    × ((call {A = Unit {0}} {E = ℕ} 500 (returned tt) 600 tripped_frail).1
        ≡ CircuitBreaker.circuit_open)
    × (state (call {A = Unit {0}} {E = ℕ} 1200 (returned tt) 1300 tripped_frail).0 ≡ closed)
unfolding state call CircuitBreaker.init
breaker_runs = (refl, refl, refl)

call-step_example :
    (
      mode (call {A = Unit {0}} {E = ℕ} 0 (raised 5) 100 frail).0,
      (call {A = Unit {0}} {E = ℕ} 0 (raised 5) 100 frail).1,
    )
    ≡ step frail.failure_threshold frail.reset_timeout 0 (raised 5) 100 (mode frail)
call-step_example = call-step 0 100 (raised 5) frail (init-IsValid 1 1000)
