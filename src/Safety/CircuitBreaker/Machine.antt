-- ===== src/Safety/CircuitBreaker/Machine.antt =====
-- CircuitBreaker against the three-state machine that its docstring names: a call of
-- docsifer/safety/circuit_breaker.py does what the machine does.
use docsifer.Prelude.{
  ℕ, ◌+◌, ◌-◌, max, ◌≡◌, refl, true, false, none, some, List, [], ◌∷◌, arith, length, ◌∙◌, leb, ltb,
  is_some, if◌then◌else◌,
}
use docsifer.Safety.CircuitBreaker.{
  Breaker, init, closed, opened, state, admit, Outcome, returned, raised, cancelled, Reply,
  circuit_open, ended, call,
}
use docsifer.Safety.CircuitBreaker.States.{IsValid, init-IsValid, admit-IsValid, settle-IsValid}

-- The machine has no flags that could disagree.
pub data Mode : Type 0 where
  working : ℕ → Mode
  probing : Mode
  tripped : ℕ → Mode

abbrev pub mode : Breaker → Mode
mode b = elim b.opened_at [
  | none ↦ working b.failures
  | some since ↦ if b.half_open then probing else tripped since
]

module _ {A E : Type 0} where
  -- How a call that runs ends.
  abbrev pub finish : ℕ → ℕ → Outcome A E → Mode → Mode
  finish threshold later (returned a) m = working 0
  finish threshold later (raised e) (working n) =
      if leb threshold (n + 1) then tripped later else working (n + 1)
  finish threshold later (raised e) probing = tripped later
  finish threshold later (raised e) (tripped since) = tripped later
  finish threshold later cancelled m = m

  -- A call: only a tripped machine refuses, and only until its timeout has passed.
  abbrev pub step : ℕ → ℕ → ℕ → Outcome A E → ℕ → Mode → Mode × Reply A E
  step threshold timeout now fn later (tripped since) =
      if leb timeout (now - since)
      then (finish threshold later fn probing, ended fn)
      else (tripped since, circuit_open)
  step threshold timeout now fn later m = (finish threshold later fn m, ended fn)

  -- From a valid breaker, `call` and the machine reach the same mode with the same reply.
  pub call-step :
      (now later : ℕ) (fn : Outcome A E) (b : Breaker)
      → IsValid b
      → ◌≡◌ {A = Mode × Reply A E}
          (mode (call now fn later b).0, (call now fn later b).1)
          (step b.failure_threshold b.reset_timeout now fn later (mode b))
  unfolding call
  call-step now later (returned a) b v = ground arith
  call-step now later (raised e) b v = ground arith
  call-step now later cancelled b v = ground arith

  pub call-IsValid :
      (now later : ℕ) (fn : Outcome A E) (b : Breaker) → IsValid b → IsValid (call now fn later b).0
  unfolding call
  call-IsValid now later fn b v =
      ground (arith, admit-IsValid now b v, settle-IsValid later fn (admit now b).0)

abbrev failing : Outcome (Unit {0}) (Unit {0})
failing = raised tt

-- Calls one after the other that all fail, each with the times when it starts and ends.
pub fail_all : List (ℕ × ℕ) → Breaker → Breaker
fail_all [] b = b
fail_all ((now, later) ∷ rest) b = fail_all rest (call now failing later b).0

-- One failing call of a valid breaker that does not probe.
record Failed (b c : Breaker) : Type 0 where
  still : c.half_open ≡ false
  threshold : c.failure_threshold ≡ b.failure_threshold
  stays : is_some b.opened_at ≡ true → is_some c.opened_at ≡ true
  trips : is_some b.opened_at ≡ false → is_some c.opened_at ≡ leb b.failure_threshold c.failures
  counts : is_some b.opened_at ≡ false → c.failures ≡ b.failures + 1

call-Failed :
    (now later : ℕ) (b : Breaker)
    → IsValid b
    → b.half_open ≡ false
    → Failed b (call now failing later b).0
unfolding call
call-Failed now later b v h = ground arith

fail_all-state :
    (ts : List (ℕ × ℕ)) (b : Breaker)
    → IsValid b
    → b.half_open ≡ false
    → state (fail_all ts b) ≡ (
        if is_some b.opened_at
        then opened
        else if ltb (b.failures + length ts) b.failure_threshold
        then closed
        else opened)
unfolding fail_all
fail_all-state [] b v h = unfold state in ground arith
fail_all-state ((now, later) ∷ ts) b v h = ground (
  arith,
  call-Failed now later b v h,
  fail_all-state ts (call now failing later b).0 (call-IsValid now later failing b v),
)

-- A fresh breaker stays closed for fewer failures in a row than its threshold, then it opens.
pub fail_all-init :
    (ts : List (ℕ × ℕ)) (threshold timeout : ℕ)
    → state (fail_all ts (init threshold timeout))
      ≡ (if ltb (length ts) (max 1 threshold) then closed else opened)
fail_all-init ts threshold timeout =
    fail_all-state ts (init threshold timeout) (init-IsValid threshold timeout)
      (unfold init in refl)
    ∙ (unfold init in ground arith)
