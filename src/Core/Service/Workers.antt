-- ===== src/Core/Service/Workers.antt =====
-- The worker pool of DocsiferService in docsifer/core/service.py, and the time limit that
-- docsifer/api/v1/convert.py sets on a conversion. The pool is the standard library's: what is here
-- of it is what its documentation says of jobs that never end.
use docsifer.Prelude.{
  ℕ, ◌+◌, ◌≤◌, ◌<◌, ◌≡◌, refl, subst, Bool, false, ◌&&◌, List, [], ◌∷◌, ◌++◌, length, nat_beq, ltb,
  if◌then◌else◌, arith,
}

-- Jobs that a thread runs, jobs that no thread has taken yet, and jobs whose result is awaited.
pub record Pool : Type 0 where
  pub max_workers : ℕ
  pub running : List ℕ
  pub queue : List ℕ
  pub awaited : List ℕ

unfoldable pub init : ℕ → Pool
init n = record { max_workers = n; running = []; queue = []; awaited = [] }

unfoldable pub remove : ℕ → List ℕ → List ℕ
remove j [] = []
remove j (k ∷ ks) = if nat_beq k j then ks else k ∷ remove j ks

-- A thread that is free takes the oldest job.
abbrev taken : Pool → List ℕ → Pool
taken p [] = p
taken p (j ∷ q) =
    if ltb (length p.running) p.max_workers
    then record p { running = j ∷ p.running; queue = q }
    else p

unfoldable pub take_next : Pool → Pool
take_next p = taken p p.queue

-- `run_in_executor`
unfoldable pub submit : ℕ → Pool → Pool
unfolding take_next
submit j p = take_next (record p { queue = p.queue ++ j ∷ []; awaited = j ∷ p.awaited })

-- `wait_for` gives up and cancels the future: a job that no thread has taken is dropped, any other
-- goes on.
unfoldable pub time_out : ℕ → Pool → Pool
unfolding remove
time_out j p = record p { queue = remove j p.queue; awaited = remove j p.awaited }

-- `executor.shutdown(True)` returns when no job is left.
unfoldable pub may_shut_down : Pool → Bool
may_shut_down p = nat_beq (length p.running) 0 && nat_beq (length p.queue) 0

-- The jobs `js` are started one after another, hang, and are given up.
unfoldable pub hang : List ℕ → Pool → Pool
unfolding submit time_out
hang [] p = p
hang (j ∷ js) p = hang js (time_out j (submit j p))

-- A pool whose jobs are all given up.
record IsAbandoned (n k : ℕ) (p : Pool) : Type 0 where
  workers : p.max_workers ≡ n
  busy : length p.running ≡ k
  none_waits : p.queue ≡ []
  none_awaited : p.awaited ≡ []

give_up-IsAbandoned :
    (n k j : ℕ) (p : Pool)
    → k < n
    → IsAbandoned n k p
    → IsAbandoned n (k + 1) (time_out j (submit j p))
unfolding submit time_out take_next remove
give_up-IsAbandoned n k j p h a = ground arith

-- While every worker hangs, a job that is submitted waits.
submit-IsAbandoned :
    (n j : ℕ) (p : Pool)
    → IsAbandoned n n p
    → ((submit j p).running ≡ p.running) × ((submit j p).queue ≡ j ∷ [])
unfolding submit take_next
submit-IsAbandoned n j p a = ground arith

hang-IsAbandoned :
    (n k : ℕ) (js : List ℕ) (p : Pool)
    → k + length js ≤ n
    → IsAbandoned n k p
    → IsAbandoned n (k + length js) (hang js p)
unfolding hang
hang-IsAbandoned n k [] p h a = ground (arith, a)
hang-IsAbandoned n k (j ∷ js) p h a =
    let rest =
      hang-IsAbandoned n (k + 1) js (time_out j (submit j p)) (omega arith)
        (give_up-IsAbandoned n k j p (omega arith) a) in
    subst (λ m. IsAbandoned n m (hang (j ∷ js) p)) (omega arith) rest

-- As many jobs as there are workers, each of which hangs and is given up when its time is over,
-- leave nobody who awaits a job, and yet every worker busy: the next job waits in the queue, and a
-- shutdown does not end.
pub hang-starves :
    (n j : ℕ) (js : List ℕ)
    → length js ≡ n
    → 0 < n
    → let p = hang js (init n) in
      (p.awaited ≡ [])
      × (length p.running ≡ n)
      × ((submit j p).running ≡ p.running)
      × ((submit j p).queue ≡ j ∷ [])
      × (may_shut_down p ≡ false)
unfolding init may_shut_down
hang-starves n j js e h =
    let start : IsAbandoned n 0 (init n) = record {
      workers = refl;
      busy = refl;
      none_waits = refl;
      none_awaited = refl;
    } in
    let a : IsAbandoned n n (hang js (init n)) =
      subst (λ m. IsAbandoned n m (hang js (init n))) (omega (arith, e))
        (hang-IsAbandoned n 0 js (init n) (omega (arith, e)) start) in
    let (stays, waits) = submit-IsAbandoned n j _ a in
    (a.none_awaited, a.busy, stays, waits, ground (arith, a.busy))
