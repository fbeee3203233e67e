-- ===== src/Main/Layers.antt =====
-- The middlewares that `create_app` of docsifer/main.py and `register_middleware` of
-- docsifer/api/middleware.py wrap around the routes, with the handlers of exceptions that
-- docsifer/api/error_handlers.py registers. Starlette runs the middleware that was added last first;
-- it calls the handler of `Exception` outside of all of them and the other handlers inside. Its own
-- two middlewares are parameters.
pub mod Replies
use docsifer.Prelude.{
  ℕ, Bool, Option, none, some, List, [], ◌∷◌, Str, if◌then◌else◌, false, str_eq, ◌==◌,
}
use docsifer.Prelude.Text.{codes}
use docsifer.Exceptions.{Result, ok, err, Raised, unexpected}
use docsifer.Api.ErrorHandlers.{Response, respond, fallback_handler}
use docsifer.Config.{Settings, cors_allow_credentials_safe}
use docsifer.Api.Middleware
use docsifer.Api.Middleware.{HeaderMap, Reply, security}

pub data Layer : Type 0 where
  cors : (allow_credentials : Bool) (allow_origins : List Str) → Layer
  gzip : (minimum_size : ℕ) → Layer
  request_id : Layer
  body_limit : (max_bytes : ℕ) → Layer
  security_headers : Layer

unfoldable pub register_middleware : Settings → List Layer
register_middleware s =
    request_id
    ∷ body_limit s.max_upload_bytes
    ∷ (if s.enable_security_headers then security_headers ∷ [] else [])

-- In the order in which they are added.
unfoldable pub create_app : Settings → List Layer
unfolding register_middleware
create_app s =
    cors (cors_allow_credentials_safe s) s.cors_origins
    ∷ gzip s.gzip_min_size
    ∷ register_middleware s

-- What the layers see of a request, and Starlette's own middlewares.
pub record Web (map : HeaderMap) : Type 1 where
  pub sent_id : Option Str
  pub token : Str
  pub content_length : Option Str
  pub cors : Bool → List Str → Result (Reply map) → Result (Reply map)
  pub gzip : ℕ → Result (Reply map) → Result (Reply map)

module _ (map : HeaderMap) (web : Web map) where
  -- A handler runs with the value of `request_id_var`.
  unfoldable pub wrap : Layer → (Option Str → Result (Reply map)) → Option Str → Result (Reply map)
  wrap (cors credentials origins) h rid = web.cors credentials origins (h rid)
  wrap (gzip size) h rid = web.gzip size (h rid)
  wrap request_id h rid = Middleware.request_id map web.sent_id web.token λ r. h (some r)
  wrap (body_limit n) h rid = Middleware.body_limit map n web.content_length rid (h rid)
  wrap security_headers h rid = security map (h rid)

  unfoldable pub wrap_all :
      List Layer → (Option Str → Result (Reply map)) → Option Str → Result (Reply map)
  unfolding wrap
  wrap_all [] h = h
  wrap_all (l ∷ ls) h = wrap_all ls (wrap l h)

  -- A request as the server gets it: no id is set yet.
  unfoldable pub dispatch : Settings → (Option Str → Result (Reply map)) → Result (Reply map)
  unfolding wrap_all create_app
  dispatch s routes = wrap_all (create_app s) routes none

-- `BaseException`s that are not `Exception`s are left alone by Starlette.
abbrev pub is_cancelled : Raised → Bool
is_cancelled (unexpected name message) = name == codes "CancelledError"
is_cancelled e = false

module _ (map : HeaderMap) where
  abbrev pub json : Response → Reply map
  json r = record { status = r.status; headers = map.empty; body = r.body }

  -- Around the routes: the classes of exceptions that have a handler of their own.
  unfoldable pub exception_handlers : Option Str → Result (Reply map) → Result (Reply map)
  exception_handlers rid (ok r) = ok r
  exception_handlers rid (err (unexpected name message)) = err (unexpected name message)
  exception_handlers rid (err e) = ok (json (respond rid e))

  -- Around all layers, where no id is set any more: the handler of `Exception`.
  unfoldable pub server_errors : Result (Reply map) → Result (Reply map)
  server_errors (ok r) = ok r
  server_errors (err e) = if is_cancelled e then err e else ok (json (fallback_handler none))

  -- What the server sends for a request.
  unfoldable pub app : Web map → Settings → (Option Str → Result (Reply map)) → Result (Reply map)
  unfolding exception_handlers server_errors
  app web s routes = server_errors (dispatch map web s λ rid. exception_handlers rid (routes rid))
