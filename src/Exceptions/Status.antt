-- ===== src/Exceptions/Status.antt =====
-- The HTTP statuses of the error classes of docsifer/exceptions.py.
use docsifer.Prelude.{ℕ, ◌≤◌, ◌≡◌, refl, none, some, arith}
use docsifer.Exceptions.{ErrorClass, docsifer_error, status_code, base, own_status}

-- Every class has a status, and it is one of an HTTP error: 400 to 504.
pub status_code-range :
    (c : ErrorClass) → (s : ℕ) × (status_code c ≡ some s) × (400 ≤ s) × (s ≤ 504)
unfolding status_code
status_code-range docsifer_error = (500, refl, omega arith, omega arith)
status_code-range _ = (_, refl, omega arith, omega arith)

-- Three rounds of lookup are enough: a class has the status that its body sets, and otherwise the
-- status of its base class.
pub status_code-inherits :
    (c : ErrorClass)
    → status_code c ≡ elim (own_status c) [
      | some s ↦ some s
      | none ↦ elim (base c) [ none ↦ none | some b ↦ status_code b ]
    ]
unfolding status_code
status_code-inherits docsifer_error = refl
status_code-inherits _ = refl
