-- ===== src/Safety/Semaphore.antt =====
-- `asyncio.Semaphore`, as the gate uses it: a value, and the futures of the waiting tasks, oldest
-- first, each with the flag that its turn has come. A task that is woken stays in the line until it
-- runs again.
pub mod Turns
pub mod Line
use docsifer.Prelude.{
  ℕ, zero, suc, ◌+◌, ◌-◌, ◌<◌, ◌≡◌, refl, ◌⊎◌, inl, inr, Bool, true, false, not, Option, none, some,
  List, [], ◌∷◌, ◌++◌, ◌||◌, nat_beq, if◌then◌else◌, arith, Option-cases,
}

pub record Semaphore : Type 0 where
  pub value : ℕ
  pub waiters : List (ℕ × Bool)

-- How many futures are not done, and how many are.
abbrev pub pending : List (ℕ × Bool) → ℕ
pending [] = 0
pending ((t, true) ∷ w) = pending w
pending ((t, false) ∷ w) = suc (pending w)

abbrev pub woken : List (ℕ × Bool) → ℕ
woken [] = 0
woken ((t, true) ∷ w) = suc (woken w)
woken ((t, false) ∷ w) = woken w

abbrev nonempty : List (ℕ × Bool) → Bool
nonempty [] = false
nonempty (x ∷ w) = true

-- A newcomer queues behind those who wait, even if the value is positive.
unfoldable pub locked : Semaphore → Bool
locked s = nat_beq s.value 0 || nonempty s.waiters

unfoldable pub take : Semaphore → Semaphore
take s = record s { value = s.value - 1 }

unfoldable pub wait : ℕ → Semaphore → Semaphore
wait t s = record s { waiters = s.waiters ++ (t, false) ∷ [] }

-- `fut.set_result(True)` on the oldest future that is not done.
unfoldable pub wake_first : List (ℕ × Bool) → Option (List (ℕ × Bool))
wake_first [] = none
wake_first ((t, true) ∷ w) = elim (wake_first w) [ none ↦ none | some w' ↦ some ((t, true) ∷ w') ]
wake_first ((t, false) ∷ w) = some ((t, true) ∷ w)

-- `while self._value > 0: if not self._wake_up_next(): break`
unfoldable pub wake_all : ℕ → List (ℕ × Bool) → Semaphore
wake_all zero w = record { value = 0; waiters = w }
wake_all (suc v) w = elim (wake_first w) [
  | none ↦ record { value = suc v; waiters = w }
  | some w' ↦ wake_all v w'
]

unfoldable pub remove : ℕ → List (ℕ × Bool) → List (ℕ × Bool)
remove t [] = []
remove t ((u, b) ∷ w) = if nat_beq u t then w else (u, b) ∷ remove t w

-- The flag of a task that waits.
unfoldable pub flag : ℕ → List (ℕ × Bool) → Option Bool
flag t [] = none
flag t ((u, b) ∷ w) = if nat_beq u t then some b else flag t w

abbrev pub given_back : Bool → Option Bool → ℕ
given_back true (some true) = 1
given_back _ _ = 0

-- The end of a wait. A cancelled task that had been woken gives its turn back.
unfoldable pub withdraw : ℕ → Bool → Semaphore → Semaphore
unfolding flag remove wake_all wake_first
withdraw t cancelled s =
    wake_all (s.value + given_back cancelled (flag t s.waiters)) (remove t s.waiters)

unfoldable pub release : Semaphore → Semaphore
unfolding wake_first
release s = elim (wake_first s.waiters) [
  | none ↦ record s { value = s.value + 1 }
  | some w ↦ record { value = s.value + 1 - 1; waiters = w }
]
