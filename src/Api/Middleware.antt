-- ===== src/Api/Middleware.antt =====
-- docsifer/api/middleware.py: each middleware as a function of the rest of the application
-- (`call_next`). Starlette's headers are a parameter.
pub mod Limits
use docsifer.Prelude.{
  ℕ, ◌<◌, ◌≡◌, Bool, true, false, Option, none, some, is_some, List, [], ◌∷◌, Str, str_eq, ◌==◌,
  ltb, if◌then◌else◌,
}
use docsifer.Prelude.Text.{codes, lower}
use docsifer.Prelude.Numerals.{ℤ, pos, negsuc, parse_int}
use docsifer.Exceptions.{Result, ok, err, number, payload_too_large, class_name}
use docsifer.Api.ErrorHandlers.{Body, payload}

-- What the program uses of `MutableHeaders`: names differ by their letters alone, not by the case.
pub record HeaderMap : Type 1 where
  pub Headers : Type 0
  pub empty : Headers
  pub get : Str → Headers → Option Str
  pub put : Str → Str → Headers → Headers
  pub setdefault : Str → Str → Headers → Headers
  pub get-put :
      (k j v : Str) (h : Headers)
      → get j (put k v h) ≡ (if lower k == lower j then some v else get j h)
  pub get-setdefault :
      (k j v : Str) (h : Headers)
      → get j (setdefault k v h)
        ≡ (if lower k == lower j then (if is_some (get j h) then get j h else some v) else get j h)

abbrev pub request_id_header : Str
request_id_header = codes "X-Request-ID"

abbrev pub security_headers : List (Str × Str)
security_headers =
    (codes "X-Content-Type-Options", codes "nosniff")
    ∷ (
      codes "Content-Security-Policy",
      codes
          "frame-ancestors 'self' https://huggingface.co https://*.huggingface.co https://*.hf.space",
    )
    ∷ (codes "Referrer-Policy", codes "no-referrer")
    ∷ (codes "X-XSS-Protection", codes "0")
    ∷ []

abbrev pub text_or_else : Option Str → Str → Str
text_or_else none d = d
text_or_else (some []) d = d
text_or_else (some (c ∷ s)) d = c ∷ s

module _ (map : HeaderMap) where
  -- The body is JSON of the program or what an endpoint made.
  pub record Reply : Type 0 where
    pub status : ℕ
    pub headers : map.Headers
    pub body : Body

  abbrev set_header : Str → Str → Result Reply → Result Reply
  set_header k v (ok r) = ok (record r { headers = map.put k v r.headers })
  set_header k v (err e) = err e

  -- `sent` is the header of the request, `token` is `secrets.token_hex(8)`, and `call_next` runs
  -- with the request id that `request_id_var` then has.
  unfoldable pub request_id : Option Str → Str → (Str → Result Reply) → Result Reply
  request_id sent token call_next =
      let rid = text_or_else sent token in set_header request_id_header rid (call_next rid)

  unfoldable pub too_large : ℕ → Option Str → Reply
  too_large max_bytes rid = record {
    status = 413;
    headers = map.empty;
    body =
        payload rid (codes "PayloadTooLargeError") (codes "Payload too large")
          (some ((codes "max_bytes", number max_bytes) ∷ []));
  }

  -- A number below zero is not above the limit.
  abbrev pub exceeds : Option ℤ → ℕ → Bool
  exceeds none max_bytes = false
  exceeds (some (pos n)) max_bytes = ltb max_bytes n
  exceeds (some (negsuc n)) max_bytes = false

  abbrev pub length_of : Option Str → Option ℤ
  length_of none = none
  length_of (some cl) = parse_int cl

  unfoldable pub body_limit : ℕ → Option Str → Option Str → Result Reply → Result Reply
  unfolding too_large
  body_limit max_bytes content_length rid call_next =
      if exceeds (length_of content_length) max_bytes
      then ok (too_large max_bytes rid)
      else call_next

  unfoldable pub set_defaults : List (Str × Str) → map.Headers → map.Headers
  set_defaults [] h = h
  set_defaults ((k, v) ∷ hs) h = set_defaults hs (map.setdefault k v h)

  abbrev default_headers : Result Reply → Result Reply
  default_headers (ok r) = ok (record r { headers = set_defaults security_headers r.headers })
  default_headers (err e) = err e

  unfoldable pub security : Result Reply → Result Reply
  unfolding set_defaults
  security call_next = default_headers call_next
