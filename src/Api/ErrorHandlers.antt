-- ===== src/Api/ErrorHandlers.antt =====
-- docsifer/api/error_handlers.py: what the client sees of an exception. Logging is left out.
pub mod Secrecy
use docsifer.Prelude.{ℕ, Option, none, some, List, [], ◌∷◌, Str}
use docsifer.Prelude.Text.{codes, is_empty}
use docsifer.Exceptions.{
  Error, ErrorClass, Details, Detail, texts, class_name, status_code, Raised, domain,
  http_exception, request_validation, unexpected,
}

pub record Body : Type 0 where
  pub error : Str
  pub message : Str
  pub request_id : Option Str
  pub details : Option Details

pub record Response : Type 0 where
  pub status : ℕ
  pub body : Body

abbrev pub or_none : Details → Option Details
or_none [] = none
or_none (d ∷ ds) = some (d ∷ ds)

abbrev pub nonempty : Option Details → Option Details
nonempty none = none
nonempty (some d) = or_none d

unfoldable pub payload : Option Str → Str → Str → Option Details → Body
payload request_id error message details = record {
  error = error;
  message = message;
  request_id = request_id;
  details = nonempty details;
}

abbrev status_or : Option ℕ → ℕ
status_or none = 500
status_or (some s) = s

unfoldable pub docsifer_handler : Option Str → Error → Response
unfolding payload class_name status_code
docsifer_handler request_id e = record {
  status = status_or (status_code e.error_class);
  body = payload request_id (class_name e.error_class) e.public_message (or_none e.details);
}

unfoldable pub http_exception_handler : Option Str → ℕ → Option Str → Response
unfolding payload
http_exception_handler request_id status detail = record {
  status = status;
  body =
      payload request_id (codes "HTTPException")
        (elim detail [ none ↦ codes "HTTP error" | some d ↦ d ]) none;
}

unfoldable pub validation_handler : Option Str → List Str → Response
unfolding payload
validation_handler request_id errors = record {
  status = 422;
  body =
      payload request_id (codes "ValidationError") (codes "Request validation failed")
        (some ((codes "errors", texts errors) ∷ []));
}

unfoldable pub fallback_handler : Option Str → Response
unfolding payload
fallback_handler request_id = record {
  status = 500;
  body =
      payload request_id (codes "InternalServerError") (codes "An unexpected error occurred") none;
}

-- `register_exception_handlers`: the handler of the first class that fits.
unfoldable pub respond : Option Str → Raised → Response
unfolding docsifer_handler http_exception_handler validation_handler fallback_handler
respond request_id (domain e) = docsifer_handler request_id e
respond request_id (http_exception status detail) = http_exception_handler request_id status detail
respond request_id (request_validation errors) = validation_handler request_id errors
respond request_id (unexpected name message) = fallback_handler request_id
