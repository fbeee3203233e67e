-- ===== src/Main.antt =====
-- docsifer/main.py: the lifespan as the list of the steps it tries in order, each with the settings
-- that matter to it, and how it ends. How a step ends is a parameter, but for the gate's constructor.
pub mod Shutdown
pub mod Layers
use docsifer.Prelude.{
  ℕ, Bool, true, false, Option, none, some, List, [], ◌∷◌, ◌++◌, Str, if◌then◌else◌,
}
use docsifer.Prelude.Text.{codes}
use docsifer.Config.{Settings, analytics_persistent}
use docsifer.Safety.ConversionGate

pub data StoreChoice : Type 0 where
  in_memory : StoreChoice
  upstash : Str → Option Str → StoreChoice

-- The flag says whether the constructor of `UpstashStore` raises.
unfoldable pub build_analytics_store : Settings → Bool → StoreChoice
unfolding analytics_persistent
build_analytics_store s raises =
    if analytics_persistent s
    then (if raises then in_memory else upstash s.redis_url s.redis_token)
    else in_memory

pub data Task : Type 0 where
  disk_cleanup memory_watchdog : Task

pub data Step : Type 0 where
  configure_logging : (level : Str) (json_output : Bool) → Step
  make_converter : (worker_pool_size : ℕ) (known_extensions : List Str) → Step
  start_analytics : (store : StoreChoice) (sync_interval_sec max_retries : ℕ) (label : Str) → Step
  make_gate : (max_concurrent max_queue : ℕ) → Step
  make_limiter : (max_per_ip : ℕ) → Step
  make_guard : (min_free_memory_mb min_free_disk_mb : ℕ) → Step
  start_cleanup : (ttl_sec interval_sec : ℕ) → Step
  start_watchdog : (threshold_pct interval_sec : ℕ) → Step
  serve set_stop_event stop_analytics shutdown_converter : Step
  end_task : Task → Step

-- An exception by its class and text, or the `CancelledError` that no `Exception` is.
pub data Ending : Type 0 where
  finishes : Ending
  raises : Str → Str → Ending
  cancelled : Ending

abbrev watchdog : Settings → List Step
watchdog s =
    if s.enable_memory_watchdog
    then start_watchdog s.memory_watchdog_pct s.memory_watchdog_interval_sec ∷ []
    else []

-- What comes before the `yield`.
unfoldable pub startup : Settings → Bool → List Step
unfolding build_analytics_store
startup s upstash_raises =
    configure_logging s.log_level s.log_json
    ∷ make_converter s.worker_pool_size s.allowed_extensions
    ∷ start_analytics (build_analytics_store s upstash_raises) s.analytics_sync_interval_sec
        s.analytics_max_retries s.analytics_label
    ∷ make_gate s.max_concurrent_conversions s.max_queue_depth
    ∷ make_limiter s.max_per_ip_concurrent
    ∷ make_guard s.min_free_memory_mb s.min_free_disk_mb
    ∷ start_cleanup s.disk_cleanup_ttl_sec s.disk_cleanup_interval_sec
    ∷ watchdog s

abbrev tasks : Settings → List Step
tasks s = if s.enable_memory_watchdog then end_task memory_watchdog ∷ [] else []

-- What the `finally` holds.
unfoldable pub shutdown : Settings → List Step
shutdown s =
    set_stop_event ∷ end_task disk_cleanup ∷ (tasks s ++ stop_analytics ∷ shutdown_converter ∷ [])

-- `ConversionGate.__init__` raises by itself.
abbrev made : Option ConversionGate.Gate → Ending → Ending
made none e = raises (codes "ValueError") (codes "max_concurrent must be positive")
made (some gate) e = e

unfoldable pub ending : (Step → Ending) → Step → Ending
unfolding ConversionGate.init
ending w (make_gate c q) = made (ConversionGate.init c q) (w (make_gate c q))
ending w step = w step

-- suppress(Exception), and suppress(CancelledError, Exception) around a task.
abbrev no_exception : Ending → Ending
no_exception cancelled = cancelled
no_exception _ = finishes

unfoldable pub suppressed : Step → Ending → Ending
suppressed (end_task t) e = finishes
suppressed stop_analytics e = no_exception e
suppressed shutdown_converter e = no_exception e
suppressed _ e = e

abbrev before : Step → List Step × Ending → List Step × Ending
before s r = (s ∷ r.0, r.1)

abbrev go_on : Ending → Step → List Step × Ending → List Step × Ending
go_on finishes s rest = before s rest
go_on e s rest = (s ∷ [], e)

-- Up to the first step that does not finish.
unfoldable pub perform : (Step → Ending) → List Step → List Step × Ending
perform w [] = ([], finishes)
perform w (s ∷ ss) = let rest = perform w ss in go_on (w s) s rest

abbrev unless : Ending → Ending → Ending
unless finishes e = e
unless f e = f

-- The `finally`: an exception that leaves it replaces the one of the body.
unfoldable pub serve_and_stop : (Step → Ending) → Settings → List Step × Ending
unfolding perform suppressed shutdown
serve_and_stop w s =
    let (steps, e) = perform (λ t. suppressed t (w t)) (shutdown s) in
    (serve ∷ steps, unless e (w serve))

abbrev pub after_startup : List Step × Ending → List Step × Ending → List Step × Ending
after_startup (done, finishes) rest = (done ++ rest.0, rest.1)
after_startup (done, e) rest = (done, e)

unfoldable pub lifespan : (Step → Ending) → Bool → Settings → List Step × Ending
unfolding startup ending serve_and_stop
lifespan w upstash_raises s =
    after_startup (perform (ending w) (startup s upstash_raises)) (serve_and_stop (ending w) s)
