-- ===== src/Tests/Server.antt =====
-- Requests of docsifer/api/v1/convert.py on the gate and the limiter of docsifer/main.py.
use docsifer.Prelude.{
  All, ◌≢◌, List, ℕ, ◌+◌, ◌≤◌, max, ◌≡◌, refl, true, false, some, [], ◌∷◌, ◌++◌, Str,
}
use docsifer.Prelude.Text.{codes}
use docsifer.Safety.ConversionGate.Interleaving.{idle}
use docsifer.Safety.PerIpLimiter.Slots.{active}
use docsifer.Api.Convert.{Request, make_dir, remove_dir, enter_ip, leave_ip, enter_gate, leave_gate}
use docsifer.Api.Server.{
  Server, Step, start, idle_server, program, Reach, here, next, arrives, performs, raises, ends,
}
use docsifer.Api.Server.Counts.{total}
use docsifer.Api.Server.Gates.{in_gate, in_line}
use docsifer.Api.Server.Places.{place}
use docsifer.Api.Server.Directories.{owns}
use docsifer.Api.Server.Progress.{NextIsNew, GoesOn, Reach-GoesOn}
use docsifer.Safety.PerIpLimiter.Clients.{count}
use docsifer.Api.Server.Safety.{converting, Reach-bounds, Reach-released}
use docsifer.Tests.Endpoint.{settings, world, request}

abbrev client : Str
client = codes "1.2.3.4"

abbrev directory : Str
directory = codes "/tmp/docsifer-x"

abbrev built : Server
built = idle_server settings (idle 2 10)

start_run : start settings ≡ some built
unfolding start docsifer.Safety.ConversionGate.init
start_run = refl

-- A request takes its two slots.
abbrev admitted_run : (t : Server) × Reach settings built t
unfolding docsifer.Api.Server.perform program docsifer.Api.Convert.convert_document
    docsifer.Prelude.Text.strip docsifer.Api.Convert.parse_json_form
    docsifer.Api.Convert.within_limits docsifer.Safety.PerIpLimiter.enter
    docsifer.Safety.PerIpLimiter.evict_idle docsifer.Safety.PerIpLimiter.init
    docsifer.Safety.PerIpLimiter.setdefault docsifer.Prelude.Dict.get
admitted_run = (
  _,
  next
      (next (next here (arrives 0 world request tt))
        (performs 0 true [] [] _ (enter_ip client) _ refl refl refl tt))
      (performs 0 true [] [] _ enter_gate _ refl refl refl tt),
)

-- A request with a file takes its two slots and makes its directory. An exception strikes, `rmtree`
-- fails, and the request gives both slots back.
abbrev upload : Request
upload = record request {
  file = some (record { filename = some (codes "a.txt"); body = codes "hello" });
}

abbrev failed_run : (t : Server) × Reach settings built t
unfolding docsifer.Api.Server.perform program docsifer.Api.Convert.convert_document
    docsifer.Prelude.Text.strip docsifer.Api.Convert.parse_json_form
    docsifer.Api.Convert.within_limits docsifer.Safety.PerIpLimiter.enter
    docsifer.Safety.PerIpLimiter.evict_idle docsifer.Safety.PerIpLimiter.init
    docsifer.Safety.PerIpLimiter.setdefault docsifer.Prelude.Dict.get
    docsifer.Safety.ConversionGate.enter docsifer.Safety.Semaphore.locked
    docsifer.Api.Convert.convert_source docsifer.Api.Convert.convert_upload
    docsifer.Safety.ResourceGuard.check docsifer.Api.Upload.check_extension
    docsifer.Prelude.Text.lower docsifer.Prelude.PathNames.suffix docsifer.Prelude.Text.split
    docsifer.Prelude.PathNames.name docsifer.Prelude.Text.contains_char
    docsifer.Prelude.Text.after_last count
failed_run = (
  _,
  next
      (next
        (next
          (next
            (next
              (next
                (next
                  (next (next here (arrives 0 world upload tt))
                    (performs 0 true [] [] _ (enter_ip client) _ refl refl refl tt))
                  (performs 0 true [] [] _ enter_gate _ refl refl refl tt))
                (performs 0 true [] [] _ (make_dir directory) _ refl refl refl refl))
              (raises [] [] _ refl refl))
            (performs 5 false [] [] _ (remove_dir directory) _ refl refl refl tt))
          (performs 5 true [] [] _ leave_gate _ refl refl refl tt))
        (performs 5 true [] [] _ (leave_ip client) _ refl refl refl tt))
      (ends [] [] _ refl refl refl),
)

Reach-bounds_example :
    let t = admitted_run.0 in
    (total converting t.threads ≤ 2)
    × (total in_gate t.threads + total in_line t.threads ≤ 2 + 10)
    × ((ip : Str) → total (place ip) t.threads ≤ max 1 settings.max_per_ip_concurrent)
    × ((d : Str) → total (owns d) t.threads ≤ 1)
Reach-bounds_example = Reach-bounds settings start_run admitted_run.1

failed_left : (failed_run.0.dirs ≡ directory ∷ []) × (failed_run.0.stuck ≡ directory ∷ [])
unfolding docsifer.Api.Server.perform program failed_run docsifer.Api.Convert.convert_document
    docsifer.Prelude.Text.strip docsifer.Api.Convert.parse_json_form
    docsifer.Api.Convert.within_limits docsifer.Safety.PerIpLimiter.enter
    docsifer.Safety.PerIpLimiter.evict_idle docsifer.Safety.PerIpLimiter.init
    docsifer.Safety.PerIpLimiter.setdefault docsifer.Prelude.Dict.get
    docsifer.Safety.ConversionGate.enter docsifer.Safety.Semaphore.locked
    docsifer.Api.Convert.convert_source docsifer.Api.Convert.convert_upload
    docsifer.Safety.ResourceGuard.check docsifer.Api.Upload.check_extension
    docsifer.Prelude.Text.lower docsifer.Prelude.PathNames.suffix docsifer.Prelude.Text.split
    docsifer.Prelude.PathNames.name docsifer.Prelude.Text.contains_char
    docsifer.Prelude.Text.after_last count
failed_left = (refl, refl)

Reach-released_example :
    let t = failed_run.0 in
    (t.gate ≡ built.gate)
    × ((ip : Str) → active t.limiter ip ≡ 0)
    × ((d : Str) → count d t.dirs ≡ count d t.stuck)
unfolding docsifer.Api.Server.perform program failed_run docsifer.Api.Convert.convert_document
    docsifer.Prelude.Text.strip docsifer.Api.Convert.parse_json_form
    docsifer.Api.Convert.within_limits docsifer.Safety.PerIpLimiter.enter
    docsifer.Safety.PerIpLimiter.evict_idle docsifer.Safety.PerIpLimiter.init
    docsifer.Safety.PerIpLimiter.setdefault docsifer.Prelude.Dict.get
    docsifer.Safety.ConversionGate.enter docsifer.Safety.Semaphore.locked
    docsifer.Api.Convert.convert_source docsifer.Api.Convert.convert_upload
    docsifer.Safety.ResourceGuard.check docsifer.Api.Upload.check_extension
    docsifer.Prelude.Text.lower docsifer.Prelude.PathNames.suffix docsifer.Prelude.Text.split
    docsifer.Prelude.PathNames.name docsifer.Prelude.Text.contains_char
    docsifer.Prelude.Text.after_last count
Reach-released_example = Reach-released settings start_run failed_run.1 refl

admitted_busy : admitted_run.0.threads ≢ []
unfolding docsifer.Api.Server.perform program admitted_run docsifer.Api.Convert.convert_document
    docsifer.Prelude.Text.strip docsifer.Api.Convert.parse_json_form
    docsifer.Api.Convert.within_limits docsifer.Safety.PerIpLimiter.enter
    docsifer.Safety.PerIpLimiter.evict_idle docsifer.Safety.PerIpLimiter.init
    docsifer.Safety.PerIpLimiter.setdefault docsifer.Prelude.Dict.get
admitted_busy e = cc

admitted_NextIsNew : All (λ x. NextIsNew admitted_run.0.dirs x.todo) admitted_run.0.threads
unfolding docsifer.Api.Server.perform program admitted_run docsifer.Api.Convert.convert_document
    docsifer.Prelude.Text.strip docsifer.Api.Convert.parse_json_form
    docsifer.Api.Convert.within_limits docsifer.Safety.PerIpLimiter.enter
    docsifer.Safety.PerIpLimiter.evict_idle docsifer.Safety.PerIpLimiter.init
    docsifer.Safety.PerIpLimiter.setdefault docsifer.Prelude.Dict.get
    docsifer.Safety.ConversionGate.enter docsifer.Safety.Semaphore.locked
    docsifer.Api.Convert.convert_source docsifer.Api.Convert.convert_url
    docsifer.Core.UrlGuard.validate_url docsifer.Prelude.Text.lower
    docsifer.Core.UrlGuard.any_blocked docsifer.Safety.ResourceGuard.check
    docsifer.Api.Convert.run_job
admitted_NextIsNew = (tt, tt)

Reach-GoesOn_example : (u : Server) × (st : Step settings admitted_run.0 u) × GoesOn st
Reach-GoesOn_example =
    Reach-GoesOn settings start_run admitted_run.1 admitted_busy admitted_NextIsNew
