-- ===== src/Safety/Semaphore/Turns.antt =====
-- The turns that the semaphore under docsifer/safety/conversion_gate.py gives, operation by
-- operation.
use docsifer.Prelude.{
  ℕ, zero, suc, ◌+◌, ◌<◌, ◌≡◌, refl, ◌⊎◌, inl, inr, Bool, true, false, not, Option, none, some,
  List, [], ◌∷◌, ◌++◌, arith, Option-cases,
}
use docsifer.Safety.Semaphore.{
  Semaphore, pending, woken, locked, wait, wake_first, wake_all, remove, flag, given_back, withdraw,
  release,
}

abbrev WakesOne : List (ℕ × Bool) → Option (List (ℕ × Bool)) → Type 0
WakesOne w none = pending w ≡ 0
WakesOne w (some w') = (pending w ≡ pending w' + 1) × (woken w' ≡ woken w + 1)

wake_first-WakesOne : (w : List (ℕ × Bool)) → WakesOne w (wake_first w)
unfolding wake_first
wake_first-WakesOne [] = omega arith
wake_first-WakesOne ((t, true) ∷ w) = ground (arith, wake_first-WakesOne w)
wake_first-WakesOne ((t, false) ∷ w) = omega arith

-- Waking keeps the sum of free and given turns, and stops with no turn or no future left.
pub record Woken (v : ℕ) (w : List (ℕ × Bool)) (s : Semaphore) : Type 0 where
  pub turns : s.value + woken s.waiters ≡ v + woken w
  pub line : pending s.waiters + woken s.waiters ≡ pending w + woken w
  pub busy : 0 < pending s.waiters → s.value ≡ 0

wake_all-Woken : (v : ℕ) (w : List (ℕ × Bool)) → Woken v w (wake_all v w)
unfolding wake_all
wake_all-Woken zero w = ground arith
wake_all-Woken (suc v) w = elim (Option-cases (wake_first w)) [
  | inl e ↦ rw (e, wake_all) (ground (arith, wake_first-WakesOne w))
  | inr (w', e) ↦ rw (e, wake_all) (ground (arith, wake_first-WakesOne w, wake_all-Woken v w'))
]

abbrev one_if : Bool → ℕ
one_if true = 1
one_if false = 0

remove-counts :
    (t : ℕ) (w : List (ℕ × Bool)) (b : Bool)
    → flag t w ≡ some b
    → (pending w ≡ pending (remove t w) + one_if (not b))
      × (woken w ≡ woken (remove t w) + one_if b)
unfolding flag remove
remove-counts t [] b h = cc
remove-counts t ((u, true) ∷ w) b h = ground (arith, remove-counts t w b)
remove-counts t ((u, false) ∷ w) b h = ground (arith, remove-counts t w b)

pending-snoc : (t : ℕ) (w : List (ℕ × Bool)) → pending (w ++ (t, false) ∷ []) ≡ pending w + 1
pending-snoc t [] = omega arith
pending-snoc t ((u, true) ∷ w) = pending-snoc t w
pending-snoc t ((u, false) ∷ w) = omega (arith, pending-snoc t w)

woken-snoc : (t : ℕ) (w : List (ℕ × Bool)) → woken (w ++ (t, false) ∷ []) ≡ woken w
woken-snoc t [] = refl
woken-snoc t ((u, true) ∷ w) = omega (arith, woken-snoc t w)
woken-snoc t ((u, false) ∷ w) = woken-snoc t w

pub wait-counts :
    (t : ℕ) (s : Semaphore)
    → (pending (wait t s).waiters ≡ pending s.waiters + 1)
      × (woken (wait t s).waiters ≡ woken s.waiters)
      × ((wait t s).value ≡ s.value)
unfolding wait
wait-counts t s = (pending-snoc t s.waiters, woken-snoc t s.waiters, refl)

pub not-locked : (s : Semaphore) → locked s ≡ false → (0 < s.value) × (s.waiters ≡ [])
unfolding locked
not-locked s h = ground arith

pub is_locked :
    (s : Semaphore) → locked s ≡ true → (s.value ≡ 0) ⊎ (0 < pending s.waiters + woken s.waiters)
unfolding locked
is_locked s h = line s.value s.waiters h
  where
    line :
        (v : ℕ) (w : List (ℕ × Bool))
        → locked (record { value = v; waiters = w }) ≡ true
        → (v ≡ 0) ⊎ (0 < pending w + woken w)
    line v [] h = ground arith
    line v ((t, true) ∷ w) h = inr (omega arith)
    line v ((t, false) ∷ w) h = inr (omega arith)

pub nobody : (w : List (ℕ × Bool)) → pending w + woken w ≡ 0 → w ≡ []
nobody [] h = refl
nobody ((t, true) ∷ w) h = absurd (omega arith)
nobody ((t, false) ∷ w) h = absurd (omega arith)

wake_first-oldest :
    (t : ℕ) (w r : List (ℕ × Bool))
    → pending w ≡ 0
    → wake_first (w ++ (t, false) ∷ r) ≡ some (w ++ (t, true) ∷ r)
unfolding wake_first
wake_first-oldest t [] r h = refl
wake_first-oldest t ((u, true) ∷ w) r h = ground (arith, wake_first-oldest t w r h)
wake_first-oldest t ((u, false) ∷ w) r h = absurd (omega arith)

-- `release` gives the turn to the oldest future that is not done.
pub release-oldest :
    (t : ℕ) (w r : List (ℕ × Bool)) (s : Semaphore)
    → pending w ≡ 0
    → s.waiters ≡ w ++ (t, false) ∷ r
    → release s ≡ record s { waiters = w ++ (t, true) ∷ r }
unfolding release
release-oldest t w r s h e = ground (arith, wake_first-oldest t w r h)

-- What `release` does to the sums: one turn more, and no future left to wait beside a free turn.
pub release-counts :
    (s : Semaphore)
    → ((release s).value + woken (release s).waiters ≡ s.value + woken s.waiters + 1)
      × (pending (release s).waiters + woken (release s).waiters
          ≡ pending s.waiters + woken s.waiters)
      × ((pending (release s).waiters ≡ 0) ⊎ (0 < woken (release s).waiters))
unfolding release
release-counts s = elim (Option-cases (wake_first s.waiters)) [
  | inl e ↦ rw (e, release) (ground (arith, wake_first-WakesOne s.waiters))
  | inr (w, e) ↦ rw (e, release) (ground (arith, wake_first-WakesOne s.waiters))
]

-- A task that leaves the line because its turn came takes the turn along.
pub withdraw-resumed :
    (t : ℕ) (s : Semaphore)
    → flag t s.waiters ≡ some true
    → let s' = withdraw t false s in
      (s'.value + woken s'.waiters + 1 ≡ s.value + woken s.waiters)
      × (pending s'.waiters + woken s'.waiters + 1 ≡ pending s.waiters + woken s.waiters)
      × (0 < pending s'.waiters → s'.value ≡ 0)
unfolding withdraw
withdraw-resumed t s h = ground (
  arith,
  remove-counts t s.waiters true h,
  wake_all-Woken (s.value + given_back false (flag t s.waiters)) (remove t s.waiters),
)

-- A cancelled one leaves every turn behind.
pub withdraw-cancelled :
    (t : ℕ) (b : Bool) (s : Semaphore)
    → flag t s.waiters ≡ some b
    → let s' = withdraw t true s in
      (s'.value + woken s'.waiters ≡ s.value + woken s.waiters)
      × (pending s'.waiters + woken s'.waiters + 1 ≡ pending s.waiters + woken s.waiters)
      × (0 < pending s'.waiters → s'.value ≡ 0)
unfolding withdraw
withdraw-cancelled t b s h = ground (
  arith,
  remove-counts t s.waiters b h,
  wake_all-Woken (s.value + given_back true (flag t s.waiters)) (remove t s.waiters),
)
