-- ===== src/Logging/Setup.antt =====
-- `configure_logging` of docsifer/logging_config.py, and what `logging` makes of its dict: a logger
-- hands a record to its own handlers, and then to those of its parent if it propagates.
use docsifer.Prelude.{
  ◌≡◌, refl, Bool, true, false, none, some, List, [], ◌∷◌, ◌++◌, Str, str_eq, All, ◌⊎◌, inl, inr,
  arith, if◌then◌else◌,
}
use docsifer.Prelude.Dict
use docsifer.Prelude.Dict.{Dict}
use docsifer.Prelude.Text.{codes}

-- A formatter by its class, or by its format and date format.
pub data Formatter : Type 0 where
  factory : Str → Formatter
  formats : Str → Str → Formatter

pub record Handler : Type 0 where
  pub class_name : Str
  pub stream : Str
  pub formatter : Str
  pub filters : List Str

pub record Logger : Type 0 where
  pub handlers : List Str
  pub level : Str
  pub propagate : Bool

pub record LogConfig : Type 0 where
  pub disable_existing_loggers : Bool
  pub filters : Dict Str Str
  pub formatters : Dict Str Formatter
  pub handlers : Dict Str Handler
  pub loggers : Dict Str Logger

abbrev formatter_of : Bool → Formatter
formatter_of true = factory (codes "docsifer.logging_config.JsonFormatter")
formatter_of false =
    formats (codes "%(asctime)s %(levelname)-8s %(name)s [%(request_id)s] %(message)s")
      (codes "%H:%M:%S")

abbrev logger : Str → Logger
logger level = record { handlers = codes "default" ∷ []; level = level; propagate = false }

unfoldable pub configure_logging : Str → Bool → LogConfig
configure_logging level json_output = record {
  disable_existing_loggers = false;
  filters = (codes "request_id", codes "docsifer.logging_config.RequestIdFilter") ∷ [];
  formatters = (codes "default", formatter_of json_output) ∷ [];
  handlers =
      (
        codes "default",
        record {
          class_name = codes "logging.StreamHandler";
          stream = codes "sys.stdout";
          formatter = codes "default";
          filters = codes "request_id" ∷ [];
        },
      )
      ∷ [];
  loggers =
      (codes "", logger level)
      ∷ (codes "uvicorn", logger level)
      ∷ (codes "uvicorn.error", logger level)
      ∷ (codes "uvicorn.access", logger level)
      ∷ (codes "gunicorn.error", logger level)
      ∷ (codes "gunicorn.access", logger level)
      ∷ [];
}

-- The handlers that a record reaches, from a logger and its ancestors, the root last. A logger that
-- the dict does not name has no handler and propagates.
unfoldable pub call_handlers : LogConfig → List Str → List Str
call_handlers config [] = []
call_handlers config (name ∷ parents) =
    let above = call_handlers config parents in
    elim (Dict.get name config.loggers) [
      | none ↦ above
      | some l ↦ l.handlers ++ (if l.propagate then above else [])
    ]

-- A dict with one value for all keys.
get_shared :
    {V : Type 0} (k : Str) (v : V) (d : Dict Str V)
    → All (λ e. e.1 ≡ v) d
    → (Dict.get k d ≡ none) ⊎ (Dict.get k d ≡ some v)
unfolding Dict.get
get_shared k v [] a = inl refl
get_shared k v ((j, w) ∷ d) a = ground (arith, get_shared k v d)

module _ (level : Str) (json_output : Bool) where
  abbrev config : LogConfig
  config = configure_logging level json_output

  logger_or_none :
      (name : Str)
      → (Dict.get name config.loggers ≡ none) ⊎ (Dict.get name config.loggers ≡ some (logger level))
  unfolding configure_logging
  logger_or_none name =
      get_shared name (logger level) config.loggers
        (refl, (refl, (refl, (refl, (refl, (refl, tt))))))

  -- Whatever the level and the form of the lines, a record of any logger, whose ancestors end with
  -- the root, reaches the handler `default` exactly once, and the formatter and the filters of that
  -- handler are defined.
  pub configure_logging-once :
      (names : List Str)
      → (call_handlers config (names ++ [] ∷ []) ≡ codes "default" ∷ [])
        × ((h : Handler) × (Dict.get (codes "default") config.handlers ≡ some h)
            × (Dict.has h.formatter config.formatters ≡ true)
            × All (λ f. Dict.has f config.filters ≡ true) h.filters)
  unfolding call_handlers configure_logging Dict.get Dict.has
  configure_logging-once [] = (refl, (_, refl, refl, (refl, tt)))
  configure_logging-once (name ∷ names) =
      let (once, defined) = configure_logging-once names in
      elim (logger_or_none name) [
        | inl e ↦ (rw (e, call_handlers) once, defined)
        | inr e ↦ (rw (e, call_handlers) refl, defined)
      ]
