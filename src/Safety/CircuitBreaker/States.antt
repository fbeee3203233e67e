-- ===== src/Safety/CircuitBreaker/States.antt =====
-- CircuitBreaker: the state machine of docsifer/safety/circuit_breaker.py, for one call at a time.
use docsifer.Prelude.{ℕ, ◌≤◌, ◌<◌, ◌≡◌, ◌↔◌, true, false, arith, is_some}
use docsifer.Safety.CircuitBreaker.{
  Breaker, init, closed, state, admit, on_success, on_failure, Outcome, returned, raised, cancelled,
  settle, second,
}

-- The counter and the two flags agree: the breaker is closed exactly below the threshold.
pub record IsValid (b : Breaker) : Type 0 where
  pub threshold_pos : 1 ≤ b.failure_threshold
  pub timeout_pos : second ≤ b.reset_timeout
  pub below : is_some b.opened_at ≡ false → b.failures < b.failure_threshold
  pub tripped : is_some b.opened_at ≡ true → b.failure_threshold ≤ b.failures
  pub probing : b.half_open ≡ true → is_some b.opened_at ≡ true

pub init-IsValid : (threshold timeout : ℕ) → IsValid (init threshold timeout)
unfolding init
init-IsValid threshold timeout = ground arith

pub admit-IsValid : (now : ℕ) (b : Breaker) → IsValid b → IsValid (admit now b).0
unfolding admit
admit-IsValid now b v = ground arith

pub settle-IsValid :
    {A E : Type 0} (now : ℕ) (fn : Outcome A E) (b : Breaker)
    → IsValid b
    → IsValid (settle now fn b)
unfolding settle on_success on_failure
settle-IsValid now (returned a) b v = ground arith
settle-IsValid now (raised e) b v = ground arith
settle-IsValid now cancelled b v = v

-- `state` says "closed" exactly while fewer failures than the threshold are counted.
pub state-closed_iff :
    (b : Breaker) → IsValid b → (state b ≡ closed) ↔ (b.failures < b.failure_threshold)
unfolding state
state-closed_iff b v = ground arith
