-- ===== src/Api/ErrorHandlers/Secrecy.antt =====
-- What an error response of docsifer/api/error_handlers.py can tell of the exception behind it.
use docsifer.Prelude.{◌≡◌, refl, Option, some, [], ◌∷◌, Str, arith}
use docsifer.Exceptions.{
  Error, ErrorClass, Details, raising, class_message, status_code, class_name, domain, unexpected,
}
use docsifer.Exceptions.Status.{status_code-range}
use docsifer.Api.ErrorHandlers.{respond, or_none, nonempty}

-- The text of a domain error or of an unexpected exception never reaches the client: errors that
-- differ in it alone have the same response, and so do any two unexpected exceptions.
pub respond-secret :
    (rid : Option Str) (e : Error) (message name₁ text₁ name₂ text₂ : Str)
    → (respond rid (domain e) ≡ respond rid (domain (record e { message = message })))
      × (respond rid (unexpected name₁ text₁) ≡ respond rid (unexpected name₂ text₂))
unfolding respond
respond-secret rid e message name₁ text₁ name₂ text₂ = (refl, refl)

nonempty-or_none : (d : Details) → nonempty (or_none d) ≡ or_none d
nonempty-or_none [] = refl
nonempty-or_none (d ∷ ds) = refl

-- A raised domain error is answered with the status, the name and the public message of its class,
-- whatever text it was raised with; but its details are passed on as they are.
pub respond-raising :
    (rid : Option Str) (c : ErrorClass) (message : Str) (details : Details)
    → let r = respond rid (domain (raising c message details)) in
      (status_code c ≡ some r.status)
      × (r.body.error ≡ class_name c)
      × (r.body.message ≡ class_message c)
      × (r.body.request_id ≡ rid)
      × (r.body.details ≡ or_none details)
unfolding respond raising
respond-raising rid c message details =
    let (s, e, _, _) = status_code-range c in
    (ground (arith, e), refl, refl, refl, nonempty-or_none details)
