-- ===== src/Main/Shutdown.antt =====
-- How the lifespan of docsifer/main.py ends.
use docsifer.Prelude.{
  ◌≡◌, ◌≢◌, refl, ap, ◌∙◌, Bool, true, false, List, [], ◌∷◌, ◌++◌, if◌then◌else◌, arith, All,
}
use docsifer.Prelude.Text.{codes}
use docsifer.Config.{Settings}
use docsifer.Main.{
  Step, configure_logging, make_converter, start_analytics, make_gate, serve, set_stop_event,
  stop_analytics, shutdown_converter, end_task, disk_cleanup, Ending, finishes, raises, cancelled,
  startup, shutdown, ending, suppressed, perform, serve_and_stop, lifespan, after_startup,
  memory_watchdog, build_analytics_store,
}

-- Neither of the last two steps is cancelled while it is awaited.
pub record IsUncancelled (w : Step → Ending) : Type 0 where
  pub stop : w stop_analytics ≢ cancelled
  pub converter : w shutdown_converter ≢ cancelled

no_exception-finishes : (e : Ending) → e ≢ cancelled → suppressed stop_analytics e ≡ finishes
unfolding suppressed
no_exception-finishes finishes h = refl
no_exception-finishes (raises n t) h = refl
no_exception-finishes cancelled h = absurd (h refl)

converter-finishes : (e : Ending) → e ≢ cancelled → suppressed shutdown_converter e ≡ finishes
unfolding suppressed
converter-finishes finishes h = refl
converter-finishes (raises n t) h = refl
converter-finishes cancelled h = absurd (h refl)

perform-all :
    (w : Step → Ending) (ss : List Step)
    → All (λ t. w t ≡ finishes) ss
    → perform w ss ≡ (ss, finishes)
unfolding perform
perform-all w [] h = refl
perform-all w (s ∷ ss) h = rw (h.0, perform-all w ss h.1) refl

-- The shutdown, with the tasks that the flag says.
abbrev stops : Bool → List Step
stops b =
    set_stop_event
    ∷ end_task disk_cleanup
    ∷ ((if b then end_task memory_watchdog ∷ [] else [])
        ++ stop_analytics ∷ shutdown_converter ∷ [])

stops-finish :
    (w : Step → Ending) (b : Bool)
    → w set_stop_event ≡ finishes
    → IsUncancelled w
    → All (λ t. suppressed t (w t) ≡ finishes) (stops b)
unfolding suppressed
stops-finish w true e u =
    (e, (refl, (refl, (no_exception-finishes _ u.stop, (converter-finishes _ u.converter, tt)))))
stops-finish w false e u =
    (e, (refl, (no_exception-finishes _ u.stop, (converter-finishes _ u.converter, tt))))

perform-shutdown :
    (w : Step → Ending) (s : Settings)
    → w set_stop_event ≡ finishes
    → IsUncancelled w
    → perform (λ t. suppressed t (w t)) (shutdown s) ≡ (shutdown s, finishes)
unfolding shutdown
perform-shutdown w s e u =
    perform-all (λ t. suppressed t (w t)) (stops s.enable_memory_watchdog)
      (stops-finish w s.enable_memory_watchdog e u)

after_startup-finishes :
    (r x : List Step × Ending) → r.1 ≡ finishes → after_startup r x ≡ (r.0 ++ x.0, x.1)
after_startup-finishes (d, finishes) x h = refl
after_startup-finishes (d, raises n t) x h = absurd (ground arith)
after_startup-finishes (d, cancelled) x h = absurd (ground arith)

ending-IsUncancelled : (w : Step → Ending) → IsUncancelled w → IsUncancelled (ending w)
unfolding ending
ending-IsUncancelled w u = record { stop = u.stop; converter = u.converter }

serve_and_stop-all :
    (w : Step → Ending) (s : Settings)
    → w set_stop_event ≡ finishes
    → IsUncancelled w
    → serve_and_stop (ending w) s ≡ (serve ∷ shutdown s, w serve)
unfolding serve_and_stop ending
serve_and_stop-all w s e u = rw (perform-shutdown (ending w) s e (ending-IsUncancelled w u)) refl

-- If the startup succeeds and the event can be set, then however the serving ends and whatever the
-- shutdown raises, every step of the shutdown is taken in order, and the lifespan ends as the
-- serving did, if neither the stop of the analytics nor that of the converter is cancelled.
pub lifespan-shutdown :
    (w : Step → Ending) (b : Bool) (s : Settings)
    → (perform (ending w) (startup s b)).1 ≡ finishes
    → w set_stop_event ≡ finishes
    → IsUncancelled w
    → lifespan w b s ≡ ((perform (ending w) (startup s b)).0 ++ serve ∷ shutdown s, w serve)
unfolding lifespan
lifespan-shutdown w b s h e u =
    after_startup-finishes (perform (ending w) (startup s b)) (serve_and_stop (ending w) s) h
    ∙ ap (λ x. ((perform (ending w) (startup s b)).0 ++ x.0, x.1)) (serve_and_stop-all w s e u)

-- With no room for a conversion the startup raises after the analytics has been started: nothing of
-- the shutdown is done, so neither the analytics nor the converter is stopped.
pub lifespan-no_room :
    (w : Step → Ending) (b : Bool) (s : Settings)
    → s.max_concurrent_conversions ≡ 0
    → ((t : Step) → w t ≡ finishes)
    → lifespan w b s ≡ (
      configure_logging s.log_level s.log_json
          ∷ make_converter s.worker_pool_size s.allowed_extensions
          ∷ start_analytics
              (build_analytics_store s b)
              s.analytics_sync_interval_sec
              s.analytics_max_retries
              s.analytics_label
          ∷ make_gate 0 s.max_queue_depth
          ∷ [],
      raises (codes "ValueError") (codes "max_concurrent must be positive"),
    )
unfolding lifespan startup perform ending
lifespan-no_room w b s h k = simp (k, h)
