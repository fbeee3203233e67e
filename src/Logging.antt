-- ===== src/Logging.antt =====
-- docsifer/logging_config.py: the filter, and the dict that `JsonFormatter.format` dumps. The time,
-- the message and the exception come as texts.
pub mod Payload
pub mod Setup
use docsifer.Prelude.{
  ℕ, Bool, true, false, ◌||◌, Option, none, some, List, [], ◌∷◌, Str, str_eq, ◌==◌, if◌then◌else◌,
}
use docsifer.Prelude.Dict
use docsifer.Prelude.Dict.{Dict}
use docsifer.Prelude.Text.{codes, starts_with}

-- A value that `json.dumps` takes, by its JSON, or one that it refuses, by its `repr`.
pub data Value : Type 0 where
  dumped : Str → Value
  opaque_value : Str → Value

-- `attributes` are the items of `record.__dict__`, `request_id` among them.
pub record LogRecord : Type 0 where
  pub levelname : Str
  pub name : Str
  pub message : Str
  pub request_id : Option Str
  pub exc_info : Option Str
  pub attributes : Dict Str Value

abbrev pub or_dash : Option Str → Str
or_dash none = codes "-"
or_dash (some []) = codes "-"
or_dash (some (c ∷ s)) = c ∷ s

-- `RequestIdFilter.filter`, with the value of `request_id_var`.
unfoldable pub filter : Option Str → LogRecord → LogRecord × Bool
filter var r = (record r { request_id = some (or_dash var) }, true)

abbrev pub reserved : List Str
reserved =
    codes "args"
    ∷ codes "asctime"
    ∷ codes "created"
    ∷ codes "exc_info"
    ∷ codes "exc_text"
    ∷ codes "filename"
    ∷ codes "funcName"
    ∷ codes "levelname"
    ∷ codes "levelno"
    ∷ codes "lineno"
    ∷ codes "module"
    ∷ codes "msecs"
    ∷ codes "message"
    ∷ codes "msg"
    ∷ codes "name"
    ∷ codes "pathname"
    ∷ codes "process"
    ∷ codes "processName"
    ∷ codes "relativeCreated"
    ∷ codes "stack_info"
    ∷ codes "thread"
    ∷ codes "threadName"
    ∷ []

abbrev pub member : Str → List Str → Bool
member s [] = false
member s (t ∷ ts) = if t == s then true else member s ts

unfoldable pub is_skipped : Str → Bool
is_skipped key = member key reserved || (starts_with (codes "_") key || key == codes "request_id")

-- What the payload holds of a value: of one that cannot be dumped, its `repr` as a text.
unfoldable pub shown : Value → Value
shown (dumped json) = dumped json
shown (opaque_value repr) = dumped repr

unfoldable pub add_extras : Dict Str Value → Dict Str Value → Dict Str Value
unfolding is_skipped shown
add_extras [] payload = payload
add_extras ((key, value) ∷ attributes) payload =
    add_extras attributes (if is_skipped key then payload else Dict.put key (shown value) payload)

abbrev id_or_dash : Option Str → Str
id_or_dash none = codes "-"
id_or_dash (some s) = s

abbrev with_exc : Option Str → Dict Str Value → Dict Str Value
with_exc none payload = payload
with_exc (some trace) payload = Dict.put (codes "exc") (dumped trace) payload

-- The fields that every line has; the JSON of a text is written as the text.
unfoldable pub base : Str → LogRecord → Dict Str Value
base ts r = with_exc r.exc_info (
    (codes "ts", dumped ts)
    ∷ (codes "level", dumped r.levelname)
    ∷ (codes "logger", dumped r.name)
    ∷ (codes "msg", dumped r.message)
    ∷ (codes "request_id", dumped (id_or_dash r.request_id))
    ∷ [])

unfoldable pub format : Str → LogRecord → Dict Str Value
unfolding add_extras base
format ts r = add_extras r.attributes (base ts r)
