-- ===== src/Safety/Semaphore/Line.antt =====
-- Which tasks stand in the line of the semaphore under docsifer/safety/conversion_gate.py.
use docsifer.Prelude.{
  ℕ, zero, suc, ◌+◌, ◌-◌, ◌≤◌, ◌<◌, ◌≡◌, refl, inl, inr, Bool, true, false, Option, none, some,
  List, [], ◌∷◌, ◌++◌, nat_beq, if◌then◌else◌, arith, Option-cases,
}
use docsifer.Safety.Semaphore.{
  Semaphore, woken, wait, wake_first, wake_all, remove, flag, given_back, withdraw, release,
}

-- How often a task stands in the line.
unfoldable pub times : ℕ → List (ℕ × Bool) → ℕ
times t [] = 0
times t ((u, b) ∷ w) = if nat_beq u t then times t w + 1 else times t w

times-snoc :
    (t u : ℕ) (w : List (ℕ × Bool))
    → times t (w ++ (u, false) ∷ []) ≡ times t w + (if nat_beq u t then 1 else 0)
unfolding times
times-snoc t u [] = ground arith
times-snoc t u ((v, b) ∷ w) = ground (arith, times-snoc t u w)

abbrev or_same : List (ℕ × Bool) → Option (List (ℕ × Bool)) → List (ℕ × Bool)
or_same w none = w
or_same w (some w') = w'

times-wake_first : (t : ℕ) (w : List (ℕ × Bool)) → times t (or_same w (wake_first w)) ≡ times t w
unfolding times wake_first
times-wake_first t [] = refl
times-wake_first t ((u, true) ∷ w) = ground (arith, times-wake_first t w)
times-wake_first t ((u, false) ∷ w) = ground arith

times-wake_all : (t v : ℕ) (w : List (ℕ × Bool)) → times t (wake_all v w).waiters ≡ times t w
unfolding wake_all
times-wake_all t zero w = refl
times-wake_all t (suc v) w = elim (Option-cases (wake_first w)) [
  | inl e ↦ rw (e, wake_all) refl
  | inr (w', e) ↦ rw (e, wake_all) (ground (arith, times-wake_all t v w', times-wake_first t w, e))
]

times-remove :
    (t u : ℕ) (w : List (ℕ × Bool))
    → times t (remove u w) ≡ (if nat_beq u t then times t w - 1 else times t w)
unfolding times remove
times-remove t u [] = ground arith
times-remove t u ((v, b) ∷ w) = ground (arith, times-remove t u w)

pub times-wait :
    (t u : ℕ) (s : Semaphore)
    → times t (wait u s).waiters ≡ times t s.waiters + (if nat_beq u t then 1 else 0)
unfolding wait
times-wait t u s = times-snoc t u s.waiters

pub times-withdraw :
    (t u : ℕ) (cancelled : Bool) (s : Semaphore)
    → times t (withdraw u cancelled s).waiters
      ≡ (if nat_beq u t then times t s.waiters - 1 else times t s.waiters)
unfolding withdraw
times-withdraw t u cancelled s = ground (
  arith,
  times-wake_all t (s.value + given_back cancelled (flag u s.waiters)) (remove u s.waiters),
  times-remove t u s.waiters,
)

pub times-release : (t : ℕ) (s : Semaphore) → times t (release s).waiters ≡ times t s.waiters
unfolding release
times-release t s = elim (Option-cases (wake_first s.waiters)) [
  | inl e ↦ rw (e, release) refl
  | inr (w, e) ↦ rw (e, release) (ground (arith, times-wake_first t s.waiters, e))
]

-- A task whose turn has come, where nobody stands in the line twice.
pub woken_task :
    (w : List (ℕ × Bool))
    → 0 < woken w
    → ((t : ℕ) → times t w ≤ 1)
    → (t : ℕ) × (flag t w ≡ some true) × (0 < times t w)
unfolding times flag
woken_task [] h one = absurd (omega arith)
woken_task ((u, true) ∷ w) h one = (u, ground arith, ground arith)
woken_task ((u, false) ∷ w) h one =
    let (t, f, p) = woken_task w (omega arith) (λ t. ground (arith, one t)) in
    (t, ground (arith, one t, f, p), ground (arith, p))
