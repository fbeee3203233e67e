-- ===== src/Safety/CircuitBreaker/Traffic.antt =====
-- CircuitBreaker under concurrent calls of docsifer/safety/circuit_breaker.py: calls overlap, and
-- each one's two locked sections are single steps.
use docsifer.Prelude.{ℕ, ◌+◌, ◌-◌, ◌<◌, if◌then◌else◌}
use docsifer.Safety.CircuitBreaker.{Breaker, init, admit, Outcome, settle}
use docsifer.Safety.CircuitBreaker.States.{IsValid, init-IsValid, admit-IsValid, settle-IsValid}

-- The breaker and the number of calls whose `fn` is running.
pub record Traffic : Type 0 where
  pub breaker : Breaker
  pub running : ℕ

pub data Step (s : Traffic) : Traffic → Type 0 where
  arrives :
      (now : ℕ)
      → Step s (record {
        breaker = (admit now s.breaker).0;
        running = if (admit now s.breaker).1 then s.running + 1 else s.running;
      })
  ends :
      (later : ℕ) (fn : Outcome (Unit {0}) (Unit {0}))
      → 0 < s.running
      → Step s (record { breaker = settle later fn s.breaker; running = s.running - 1 })

pub data Reach (s : Traffic) : Traffic → Type 0 where
  here : Reach s s
  next : {t u : Traffic} → Reach s t → Step t u → Reach s u

abbrev pub fresh : ℕ → ℕ → Traffic
fresh threshold timeout = record { breaker = init threshold timeout; running = 0 }

Step-IsValid : {s t : Traffic} → Step s t → IsValid s.breaker → IsValid t.breaker
Step-IsValid {s} (arrives now) v = admit-IsValid now s.breaker v
Step-IsValid {s} (ends later fn h) v = settle-IsValid later fn s.breaker v

-- However calls overlap, the counter and the flags of the breaker agree.
pub Reach-IsValid :
    (threshold timeout : ℕ) {t : Traffic} → Reach (fresh threshold timeout) t → IsValid t.breaker
Reach-IsValid threshold timeout here = init-IsValid threshold timeout
Reach-IsValid threshold timeout (next r st) = Step-IsValid st (Reach-IsValid threshold timeout r)
