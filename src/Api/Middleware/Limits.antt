-- ===== src/Api/Middleware/Limits.antt =====
-- What the middleware of docsifer/api/middleware.py does to a response.
use docsifer.Prelude.{
  ℕ, ◌≡◌, refl, ap, Option, none, some, List, [], ◌∷◌, Str, str_eq, ◌==◌, ==_refl, ltb, arith,
  if◌then◌else◌,
}
use docsifer.Prelude.Text.{lower, decimal}
use docsifer.Prelude.Numerals.{parse_int-decimal}
use docsifer.Exceptions.{Result, ok, err}
use docsifer.Api.Middleware.{
  HeaderMap, Reply, request_id, request_id_header, text_or_else, body_limit, too_large, security,
  set_defaults, security_headers, set_header,
}

module _ (map : HeaderMap) where
  -- A request that states its length as a decimal number is answered with 413, and not passed on,
  -- exactly if that number is above the limit.
  pub body_limit-decimal :
      (max_bytes n : ℕ) (rid : Option Str) (call_next : Result (Reply map))
      → body_limit map max_bytes (some (decimal n)) rid call_next
        ≡ (if ltb max_bytes n then ok (too_large map max_bytes rid) else call_next)
  unfolding body_limit
  body_limit-decimal max_bytes n rid call_next = rw (parse_int-decimal n) refl

  abbrev headers_of : Result (Reply map) → map.Headers
  headers_of (ok r) = r.headers
  headers_of (err e) = map.empty

  set_header-get :
      (k v : Str) (q : Result (Reply map)) (r : Reply map)
      → set_header map k v q ≡ ok r
      → map.get k r.headers ≡ some v
  set_header-get k v (ok q) r h =
      ground (arith, map.get-put k k v q.headers, ==_refl (lower k), ap headers_of h)
  set_header-get k v (err e) r h = absurd (ground arith)

  -- A response leaves with the id under which the request was handled: the client's, or the token
  -- if the client sent none or an empty one.
  pub request_id-get :
      (sent : Option Str) (token : Str) (call_next : Str → Result (Reply map)) (r : Reply map)
      → request_id map sent token call_next ≡ ok r
      → map.get request_id_header r.headers ≡ some (text_or_else sent token)
  unfolding request_id
  request_id-get sent token call_next r h =
      set_header-get request_id_header (text_or_else sent token)
        (call_next (text_or_else sent token)) r h

  abbrev pub or_else : Option Str → Option Str → Option Str
  or_else none d = d
  or_else (some v) d = some v

  -- The first default of a name.
  abbrev pub default_of : Str → List (Str × Str) → Option Str
  default_of j [] = none
  default_of j ((k, v) ∷ hs) = if lower k == lower j then some v else default_of j hs

  get-set_defaults :
      (hs : List (Str × Str)) (h : map.Headers) (j : Str)
      → map.get j (set_defaults map hs h) ≡ or_else (map.get j h) (default_of j hs)
  unfolding set_defaults
  get-set_defaults [] h j = ground arith
  get-set_defaults ((k, v) ∷ hs) h j =
      ground (arith, get-set_defaults hs (map.setdefault k v h) j, map.get-setdefault k j v h)

  -- A response keeps every header that the application has set, has the value of this module for
  -- each security header that it has not, and has no other header.
  pub security-get :
      (p r : Reply map) (j : Str)
      → security map (ok p) ≡ ok r
      → map.get j r.headers ≡ or_else (map.get j p.headers) (default_of j security_headers)
  unfolding security
  security-get p r j h =
      ground (arith, ap headers_of h, get-set_defaults security_headers p.headers j)
