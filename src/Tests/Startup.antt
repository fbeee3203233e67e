-- ===== src/Tests/Startup.antt =====
-- Runs of docsifer/main.py and docsifer/logging_config.py.
use docsifer.Prelude.{
  All, ℕ, ◌≡◌, refl, Bool, true, false, Option, none, some, List, [], ◌∷◌, ◌++◌, Str, str_eq, ◌==◌,
  if◌then◌else◌, arith,
}
use docsifer.Prelude.Dict
use docsifer.Prelude.Text.{codes}
use docsifer.Config.{Settings, default_settings}
use docsifer.Main.{
  Step, Ending, finishes, raises, serve, startup, shutdown, ending, perform, lifespan,
  stop_analytics,
}
use docsifer.Main.Shutdown.{IsUncancelled, lifespan-shutdown}
use docsifer.Api.Probes.{readyz}
use docsifer.Logging.{LogRecord, dumped, format}
use docsifer.Logging.Setup.{Handler, configure_logging, call_handlers, configure_logging-once}

abbrev settings : Settings
settings = default_settings (codes "/tmp")

-- Serving raises, and so does the stop of the analytics.
abbrev troubled : Step → Ending
troubled serve = raises (codes "RuntimeError") []
troubled stop_analytics = raises (codes "RuntimeError") []
troubled step = finishes

troubled-IsUncancelled : IsUncancelled troubled
troubled-IsUncancelled = record { stop = λ e. ground arith; converter = λ e. ground arith }

lifespan-shutdown_example : lifespan troubled false settings ≡ (
  (perform (ending troubled) (startup settings false)).0 ++ serve ∷ shutdown settings,
  troubled serve,
)
unfolding perform startup ending
lifespan-shutdown_example =
    lifespan-shutdown troubled false settings refl refl troubled-IsUncancelled

-- A call that gives an extra field of the name of a field that every line has.
abbrev log_record : LogRecord
log_record = record {
  levelname = codes "INFO";
  name = codes "docsifer";
  message = codes "hello";
  request_id = none;
  exc_info = none;
  attributes = (codes "msg", dumped (codes "%s")) ∷ (codes "level", dumped (codes "9")) ∷ [];
}

-- The extra field replaces the level.
level_lost : Dict.get (codes "level") (format (codes "t") log_record) ≡ some (dumped (codes "9"))
unfolding format Dict.get docsifer.Prelude.Text.starts_with Dict.put
level_lost = refl

-- Without an analytics server the probe is ready; with one that does not answer it is not, but the
-- response is the same kind.
readyz_runs :
    ((readyz settings false).status ≡ codes "ready")
    × ((readyz (record settings { redis_url = codes "https://r" }) false).status ≡ codes "degraded")
unfolding readyz docsifer.Prelude.Text.strip
readyz_runs = (refl, refl)

-- A logger of uvicorn, without lines in JSON.
configure_logging-once_example :
    let config = configure_logging (codes "INFO") false in
    (call_handlers config (codes "uvicorn.error" ∷ codes "uvicorn" ∷ [] ∷ [])
      ≡ codes "default" ∷ [])
    × ((h : Handler) × (Dict.get (codes "default") config.handlers ≡ some h)
        × (Dict.has h.formatter config.formatters ≡ true)
        × All (λ f. Dict.has f config.filters ≡ true) h.filters)
configure_logging-once_example =
    configure_logging-once (codes "INFO") false (codes "uvicorn.error" ∷ codes "uvicorn" ∷ [])
