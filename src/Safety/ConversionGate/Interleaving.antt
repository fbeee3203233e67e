-- ===== src/Safety/ConversionGate/Interleaving.antt =====
-- ConversionGate under any interleaving of tasks that enter, wait, are cancelled and leave:
-- docsifer/safety/conversion_gate.py.
use docsifer.Prelude.{
  ℕ, ◌+◌, ◌-◌, ◌≤◌, ◌<◌, ◌≡◌, sym, ◌∙◌, ◌⊎◌, Bool, true, false, some, List, [], ◌∷◌, ◌++◌, arith,
}
use docsifer.Safety.Semaphore.{flag, pending, woken}
use docsifer.Safety.Semaphore.Turns.{nobody, release-oldest}
use docsifer.Safety.ConversionGate.{Gate, init, enter, resume, cancel, leave}
use docsifer.Safety.ConversionGate.Accounting.{
  Balanced, body, enter-Balanced, resume-Balanced, cancel-Balanced, leave-Balanced,
}

-- The gate, and the number of tasks between their entry and their exit.
pub record Tasks : Type 0 where
  pub gate : Gate
  pub running : ℕ

pub data Step (s : Tasks) : Tasks → Type 0 where
  enters :
      (t : ℕ)
      → Step s (record { gate = (enter t s.gate).0; running = body (enter t s.gate).1 s.running })
  resumes :
      (t : ℕ)
      → flag t s.gate.semaphore.waiters ≡ some true
      → Step s (record { gate = resume t s.gate; running = s.running + 1 })
  cancels :
      (t : ℕ) (b : Bool)
      → flag t s.gate.semaphore.waiters ≡ some b
      → Step s (record { gate = cancel t s.gate; running = s.running })
  leaves : 0 < s.running → Step s (record { gate = leave s.gate; running = s.running - 1 })

pub data Reach (s : Tasks) : Tasks → Type 0 where
  here : Reach s s
  next : {t u : Tasks} → Reach s t → Step t u → Reach s u

-- The settings stay, and the books balance.
record Kept (c q : ℕ) (s : Tasks) : Type 0 where
  max_concurrent : s.gate.max_concurrent ≡ c
  max_queue : s.gate.max_queue ≡ q
  balanced : Balanced s.gate s.running

Step-Kept : {c q : ℕ} {s t : Tasks} → Step s t → Kept c q s → Kept c q t
unfolding enter resume cancel leave
Step-Kept {c} {q} {s} (enters t) k = record {
  max_concurrent = ground arith;
  max_queue = ground arith;
  balanced = enter-Balanced t s.gate s.running k.balanced;
}
Step-Kept {c} {q} {s} (resumes t h) k = record {
  max_concurrent = k.max_concurrent;
  max_queue = k.max_queue;
  balanced = resume-Balanced t s.gate s.running h k.balanced;
}
Step-Kept {c} {q} {s} (cancels t b h) k = record {
  max_concurrent = k.max_concurrent;
  max_queue = k.max_queue;
  balanced = cancel-Balanced t b s.gate s.running h k.balanced;
}
Step-Kept {c} {q} {s} (leaves h) k = record {
  max_concurrent = k.max_concurrent;
  max_queue = k.max_queue;
  balanced = leave-Balanced s.gate s.running h k.balanced;
}

init-Kept : (c q : ℕ) {g : Gate} → init c q ≡ some g → Kept c q (record { gate = g; running = 0 })
unfolding init
init-Kept c q e = ground arith

Reach-Kept : {c q : ℕ} {s t : Tasks} → Kept c q s → Reach s t → Kept c q t
Reach-Kept k here = k
Reach-Kept k (next r st) = Step-Kept st (Reach-Kept k r)

init-pos : (c q : ℕ) {g : Gate} → init c q ≡ some g → 0 < c
unfolding init
init-pos c q e = ground arith

abbrev pub idle : ℕ → ℕ → Gate
idle c q = record {
  semaphore = record { value = c; waiters = [] };
  max_concurrent = c;
  max_queue = q;
  waiting = 0;
  inflight = 0;
}

init-eq : (c q : ℕ) {g : Gate} → init c q ≡ some g → g ≡ idle c q
unfolding init
init-eq c q e = ground arith

drained :
    {c q : ℕ} (t : Tasks) → Kept c q t → t.running ≡ 0 → t.gate.waiting ≡ 0 → t.gate ≡ idle c q
drained t k r w =
    let empty = nobody t.gate.semaphore.waiters (omega (arith, k.balanced.waiting)) in
    ground (arith, empty, k)

module _ (c q : ℕ) {g : Gate} {t : Tasks} (built : init c q ≡ some g)
    (reached : Reach (record { gate = g; running = 0 }) t) where
  -- However the tasks of a gate that was built with the limits `c` and `q` interleave, at most `c`
  -- conversions run and at most `c + q` tasks are admitted, and `inflight` and `waiting` count
  -- exactly the tasks that run and wait.
  pub Reach-limits :
      (t.running ≤ c)
      × (t.gate.inflight + t.gate.waiting ≤ c + q)
      × (t.gate.inflight ≡ t.running)
      × (t.gate.waiting ≡ pending t.gate.semaphore.waiters + woken t.gate.semaphore.waiters)
  Reach-limits = let k = Reach-Kept (init-Kept c q built) reached in ground (arith, k)

  -- No deadlock: in every state that a gate just built can reach, while tasks wait, some task runs
  -- or some waiting task may go on.
  pub Reach-progress : 0 < t.gate.waiting → (0 < t.running) ⊎ (0 < woken t.gate.semaphore.waiters)
  Reach-progress =
      let k = Reach-Kept (init-Kept c q built) reached in
      let positive = init-pos c q built in λ h. ground (arith, k, positive)

  -- Nothing leaks: in every state that a gate just built can reach, when nobody runs or waits, the
  -- gate is as it was built.
  pub Reach-drained : t.running ≡ 0 → t.gate.waiting ≡ 0 → t.gate ≡ g
  Reach-drained r w =
      drained t (Reach-Kept (init-Kept c q built) reached) r w ∙ sym (init-eq c q built)

-- A task that leaves gives its turn to the task that has waited longest without one: the first in
-- the line behind tasks that all have been given theirs.
pub leave-oldest :
    (t : ℕ) (w r : List (ℕ × Bool)) (g : Gate)
    → pending w ≡ 0
    → g.semaphore.waiters ≡ w ++ (t, false) ∷ r
    → leave g ≡ record g {
      semaphore = record g.semaphore { waiters = w ++ (t, true) ∷ r };
      inflight = g.inflight - 1;
    }
unfolding leave
leave-oldest t w r g h e = ground (arith, release-oldest t w r g.semaphore h e)
