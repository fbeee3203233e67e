-- ===== src/Safety/CircuitBreaker.antt =====
-- docsifer/safety/circuit_breaker.py. Times are whole milliseconds read from the monotonic clock,
-- and the clock's readings are arguments. A negative threshold is read as 0: `max` lifts both to 1.
pub mod States
pub mod Machine
pub mod Traffic
use docsifer.Prelude.{ℕ, ◌+◌, ◌-◌, max, Bool, true, false, Option, none, some, leb, if◌then◌else◌}

abbrev pub second : ℕ
second = 1000

pub record Breaker : Type 0 where
  pub failure_threshold : ℕ
  pub reset_timeout : ℕ
  pub failures : ℕ
  pub opened_at : Option ℕ
  pub half_open : Bool

unfoldable pub init : ℕ → ℕ → Breaker
init failure_threshold reset_timeout = record {
  failure_threshold = max 1 failure_threshold;
  reset_timeout = max second reset_timeout;
  failures = 0;
  opened_at = none;
  half_open = false;
}

pub data State : Type 0 where
  closed half_opened opened : State

unfoldable pub state : Breaker → State
state b = elim b.opened_at [ none ↦ closed | some _ ↦ if b.half_open then half_opened else opened ]

-- The locked section at the start of `call`: the breaker after it, and whether `fn` is run.
-- A clock that ran backwards would give a negative age, and like the 0 of `-` that is no timeout.
unfoldable pub admit : ℕ → Breaker → Breaker × Bool
admit now b = elim b.opened_at [
  | none ↦ (b, true)
  | some since ↦
      if b.half_open
      then (b, true)
      else if leb b.reset_timeout (now - since)
      then (record b { half_open = true }, true)
      else (b, false)
]

unfoldable pub on_success : Breaker → Breaker
on_success b = record b { failures = 0; opened_at = none; half_open = false }

unfoldable pub on_failure : ℕ → Breaker → Breaker
on_failure now b =
    if leb b.failure_threshold (b.failures + 1)
    then record b { failures = b.failures + 1; opened_at = some now; half_open = false }
    else record b { failures = b.failures + 1 }

-- How `await fn(...)` ends: `CancelledError` is a `BaseException` that `except Exception` misses.
pub data Outcome (A E : Type 0) : Type 0 where
  returned : A → Outcome A E
  raised : E → Outcome A E
  cancelled : Outcome A E

-- How `call` ends: `CircuitOpenError`, or as `fn` did.
pub data Reply (A E : Type 0) : Type 0 where
  circuit_open : Reply A E
  ended : Outcome A E → Reply A E

module _ {A E : Type 0} where
  -- What `call` does once `fn` has ended at the time `later`.
  unfoldable pub settle : ℕ → Outcome A E → Breaker → Breaker
  settle later (returned a) b = on_success b
  settle later (raised e) b = on_failure later b
  settle later cancelled b = b

  -- One call alone: admitted at `now`, and `fn` ends at `later` as `fn` says.
  unfoldable pub call : ℕ → Outcome A E → ℕ → Breaker → Breaker × Reply A E
  unfolding admit settle on_success on_failure
  call now fn later b =
      let (b', admitted) = admit now b in
      if admitted then (settle later fn b', ended fn) else (b', circuit_open)
