-- ===== src/Tests/Workers.antt =====
-- Jobs on the worker pool of docsifer/core/service.py.
use docsifer.Prelude.{◌≡◌, refl, false, [], ◌∷◌, length, arith}
use docsifer.Core.Service.Workers.{Pool, init, submit, time_out, may_shut_down, hang, hang-starves}

-- One worker: the second job waits while the first one, given up, goes on.
abbrev used_pool : Pool
used_pool = submit 2 (time_out 1 (submit 1 (init 1)))

used_run : (used_pool.running ≡ 1 ∷ []) × (used_pool.queue ≡ 2 ∷ [])
unfolding init submit time_out
used_run = (refl, refl)

hang-starves_example :
    let p = hang (1 ∷ 2 ∷ []) (init 2) in
    (p.awaited ≡ [])
    × (length p.running ≡ 2)
    × ((submit 3 p).running ≡ p.running)
    × ((submit 3 p).queue ≡ 3 ∷ [])
    × (may_shut_down p ≡ false)
hang-starves_example = hang-starves 2 3 (1 ∷ 2 ∷ []) refl (omega arith)
