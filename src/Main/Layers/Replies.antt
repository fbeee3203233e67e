-- ===== src/Main/Layers/Replies.antt =====
-- What is sent for a request through the layers of docsifer/main.py, by what the layers inside that of
-- the id gave.
use docsifer.Prelude.{
  ℕ, ◌≡◌, refl, ◌∙◌, sym, Bool, true, Option, none, some, [], ◌∷◌, Str, if◌then◌else◌, false,
  str_eq, Bool-cases, inl, inr,
}
use docsifer.Prelude.Text.{lower}
use docsifer.Exceptions.{Result, ok, err}
use docsifer.Api.ErrorHandlers.{fallback_handler}
use docsifer.Config.{Settings, cors_allow_credentials_safe}
use docsifer.Api.Middleware
use docsifer.Api.Middleware.{
  HeaderMap, Reply, request_id_header, text_or_else, exceeds, length_of, too_large, security,
}
use docsifer.Api.Middleware.Limits.{request_id-get, security-get, or_else}
use docsifer.Main.Layers.{
  security_headers, create_app, register_middleware, Web, wrap, wrap_all, dispatch, is_cancelled,
  exception_handlers, server_errors, app,
}

or_else-none : (map : HeaderMap) (o : Option Str) → or_else map o none ≡ o
or_else-none map none = refl
or_else-none map (some v) = refl

module _ (map : HeaderMap) (web : Web map) (s : Settings)
    (routes : Option Str → Result (Reply map)) where
  -- What the limit stands around, and the limit.
  named : Result (Reply map)
  named = Middleware.request_id map web.sent_id web.token λ rid.
      web.gzip s.gzip_min_size
        (web.cors (cors_allow_credentials_safe s) s.cors_origins (routes (some rid)))

  limited : Result (Reply map)
  unfolding named
  limited = Middleware.body_limit map s.max_upload_bytes web.content_length none named

  last_layer :
      (b : Bool) (h : Option Str → Result (Reply map)) (rid : Option Str)
      → wrap_all map web (if b then security_headers ∷ [] else []) h rid
        ≡ (if b then security map (h rid) else h rid)
  unfolding wrap_all wrap
  last_layer true h rid = refl
  last_layer false h rid = refl

  dispatch-limited :
      dispatch map web s routes
      ≡ (if s.enable_security_headers then security map limited else limited)
  unfolding dispatch wrap_all wrap create_app register_middleware limited named
  dispatch-limited = last_layer s.enable_security_headers _ none

-- The header X-Request-ID and the status of a reply, where an exception counts as the reply that it
-- becomes.
abbrev Seen : (map : HeaderMap) → Option Str → ℕ → Result (Reply map) → Type 0
Seen map id status (ok r) = (map.get request_id_header r.headers ≡ id) × (r.status ≡ status)
Seen map id status (err e) = (id ≡ none) × (status ≡ 500)

module _ (map : HeaderMap) (web : Web map) (s : Settings) where
  -- Whether the length that the request states is above the limit.
  abbrev pub is_refused : Bool
  is_refused = exceeds map (length_of map web.content_length) s.max_upload_bytes

  -- What the routes and the layers inside that of the id make of a request.
  abbrev pub inside : (Option Str → Result (Reply map)) → Result (Reply map)
  inside routes =
      let rid = some (text_or_else web.sent_id web.token) in
      web.gzip s.gzip_min_size (
        web.cors (cors_allow_credentials_safe s) s.cors_origins
          (exception_handlers map rid (routes rid)))

  abbrev pub id_of : Result (Reply map) → Option Str
  id_of (ok r) = some (text_or_else web.sent_id web.token)
  id_of (err e) = none

  abbrev pub status_of : Result (Reply map) → ℕ
  status_of (ok r) = r.status
  status_of (err e) = 500

  request_id-Seen :
      (q : Result (Reply map))
      → Seen map (id_of q) (status_of q) (Middleware.request_id map web.sent_id web.token λ rid. q)
  unfolding Middleware.request_id
  request_id-Seen (ok r) = (
    request_id-get map web.sent_id web.token (λ rid. ok r) _ (unfold Middleware.request_id in refl),
    refl,
  )
  request_id-Seen (err e) = (refl, refl)

  security-Seen :
      (id : Option Str) (n : ℕ) (q : Result (Reply map))
      → Seen map id n q
      → Seen map id n (security map q)
  unfolding security lower
  security-Seen id n (ok r) (a, b) = (
    security-get map r _ request_id_header (unfold security in refl)
        ∙ or_else-none map (map.get request_id_header r.headers)
        ∙ a,
    b,
  )
  security-Seen id n (err e) seen = seen

  last-Seen :
      (b : Bool) (id : Option Str) (n : ℕ) (q : Result (Reply map))
      → Seen map id n q
      → Seen map id n (if b then security map q else q)
  last-Seen true id n q seen = security-Seen id n q seen
  last-Seen false id n q seen = seen

  module _ (routes : Option Str → Result (Reply map))
      (bare : map.get request_id_header map.empty ≡ none) where
    limited-Seen :
        let q = inside routes in
        Seen map
          (if is_refused then none else id_of q)
          (if is_refused then 413 else status_of q)
          (limited map web s λ rid. exception_handlers map rid (routes rid))
    unfolding limited named Middleware.body_limit too_large Middleware.request_id
    limited-Seen = elim (Bool-cases is_refused) [
      | inl e ↦ rw e (bare, refl)
      | inr e ↦ rw e (unfold Middleware.request_id in request_id-Seen (inside routes))
    ]

    dispatch-Seen :
        let q = inside routes in
        Seen map
          (if is_refused then none else id_of q)
          (if is_refused then 413 else status_of q)
          (dispatch map web s λ rid. exception_handlers map rid (routes rid))
    dispatch-Seen =
        rw (dispatch-limited map web s λ rid. exception_handlers map rid (routes rid))
          (last-Seen s.enable_security_headers _ _ _ limited-Seen)

  -- What becomes of a request for which the routes and the layers inside gave `q`.
  abbrev pub Answered : Result (Reply map) → Result (Reply map) → Type 0
  Answered q (ok r) =
      (map.get request_id_header r.headers ≡ (if is_refused then none else id_of q))
      × (r.status ≡ (if is_refused then 413 else status_of q))
  Answered q (err e) = is_cancelled e ≡ true

  server_errors-Answered :
      (p q : Result (Reply map))
      → map.get request_id_header map.empty ≡ none
      → Seen map (if is_refused then none else id_of p) (if is_refused then 413 else status_of p) q
      → Answered p (server_errors map q)
  unfolding server_errors fallback_handler
  server_errors-Answered p (ok r) bare seen = seen
  server_errors-Answered p (err e) bare seen = elim (Bool-cases (is_cancelled e)) [
    | inl c ↦ rw c c
    | inr c ↦ rw c (bare ∙ sym seen.0, sym seen.1)
  ]

-- Whatever the routes give: a request is left without a reply only where it is cancelled. If the
-- length that it states is above the limit, the reply is 413 without the header X-Request-ID, as the
-- limit stands outside the middleware that sets the id; else, if an exception that has no handler of
-- its own leaves the routes and Starlette's two layers, it is 500, without the header too, as the
-- handler of `Exception` stands outside of all; else it has the status that those layers gave, and
-- the client's id or the token in the header.
pub app-Answered :
    (map : HeaderMap) (web : Web map) (s : Settings) (routes : Option Str → Result (Reply map))
    → map.get request_id_header map.empty ≡ none
    → Answered map web s (inside map web s routes) (app map web s routes)
unfolding app
app-Answered map web s routes bare =
    server_errors-Answered map web s _ _ bare (dispatch-Seen map web s routes bare)
