-- ===== src/Safety/MemoryWatchdog.antt =====
-- docsifer/safety/memory_watchdog.py. Percentages are scaled by a common factor to whole numbers.
-- The environment of the loop is the list of its rounds.
use docsifer.Prelude.{
  ℕ, ◌<◌, ◌≡◌, ◌↔◌, Bool, true, false, List, [], ◌∷◌, ltb, if◌then◌else◌, arith, Bool-cases, inl,
  inr,
}

-- A round: the stop event is set during the wait, or the wait times out and the memory is read,
-- where `unreadable` is an exception of `memory_percent`.
pub data Round : Type 0 where
  stops : Round
  reads : ℕ → Round
  unreadable : Round

-- How the loop stands after the rounds: it goes on, it has returned, or it has sent SIGTERM to its
-- own process and returned.
pub data Watch : Type 0 where
  watching stopped terminated : Watch

unfoldable pub memory_watchdog_loop : Bool → ℕ → List Round → Watch
memory_watchdog_loop false threshold rounds = stopped
memory_watchdog_loop true threshold [] = watching
memory_watchdog_loop true threshold (stops ∷ rounds) = stopped
memory_watchdog_loop true threshold (unreadable ∷ rounds) =
    memory_watchdog_loop true threshold rounds
memory_watchdog_loop true threshold (reads usage ∷ rounds) =
    let rest = memory_watchdog_loop true threshold rounds in
    if ltb threshold usage then terminated else rest

-- A reading above the threshold comes before the first stop.
pub data Overrun (threshold : ℕ) : List Round → Type 0 where
  now :
      {usage : ℕ} {rounds : List Round}
      → threshold < usage
      → Overrun threshold (reads usage ∷ rounds)
  later_read :
      {usage : ℕ} {rounds : List Round}
      → Overrun threshold rounds
      → Overrun threshold (reads usage ∷ rounds)
  later_unread :
      {rounds : List Round} → Overrun threshold rounds → Overrun threshold (unreadable ∷ rounds)

terminated-Overrun :
    (threshold : ℕ) (rounds : List Round)
    → memory_watchdog_loop true threshold rounds ≡ terminated
    → Overrun threshold rounds
unfolding memory_watchdog_loop
terminated-Overrun threshold [] h = ground arith
terminated-Overrun threshold (stops ∷ rounds) h = ground arith
terminated-Overrun threshold (unreadable ∷ rounds) h =
    later_unread (terminated-Overrun threshold rounds h)
terminated-Overrun threshold (reads usage ∷ rounds) h = elim (Bool-cases (ltb threshold usage)) [
  | inl over ↦ now (ground arith)
  | inr under ↦ later_read (terminated-Overrun threshold rounds (ground arith))
]

Overrun-terminated :
    (threshold : ℕ) {rounds : List Round}
    → Overrun threshold rounds
    → memory_watchdog_loop true threshold rounds ≡ terminated
unfolding memory_watchdog_loop
Overrun-terminated threshold (now h) = ground arith
Overrun-terminated threshold (later_read o) = ground (arith, Overrun-terminated threshold o)
Overrun-terminated threshold (later_unread o) = Overrun-terminated threshold o

-- With `psutil` the process is terminated exactly if a reading above the threshold comes before
-- the loop is stopped.
pub terminated_iff :
    (threshold : ℕ) (rounds : List Round)
    → (memory_watchdog_loop true threshold rounds ≡ terminated) ↔ Overrun threshold rounds
terminated_iff threshold rounds =
    (terminated-Overrun threshold rounds, Overrun-terminated threshold)
