-- ===== src/Exceptions.antt =====
-- docsifer/exceptions.py: the class hierarchy, its class attributes found along the base classes,
-- and the constructor. A details value is a number, a text or a list of texts: all that the
-- program puts there.
pub mod Status
use docsifer.Prelude.{
  ℕ, zero, suc, ◌+◌, Bool, Option, none, some, List, [], ◌∷◌, Str, if◌then◌else◌,
}
use docsifer.Prelude.Dict.{Dict}
use docsifer.Prelude.Text.{codes, is_empty}

pub data ErrorClass : Type 0 where
  docsifer_error invalid_input unauthorized forbidden not_found payload_too_large : ErrorClass
  unsupported_format validation too_many_requests conversion_failed upstream_llm : ErrorClass
  service_unavailable resource_exhausted circuit_open queue_full gateway_timeout : ErrorClass

unfoldable pub class_name : ErrorClass → Str
class_name docsifer_error = codes "DocsiferError"
class_name invalid_input = codes "InvalidInputError"
class_name unauthorized = codes "UnauthorizedError"
class_name forbidden = codes "ForbiddenError"
class_name not_found = codes "NotFoundError"
class_name payload_too_large = codes "PayloadTooLargeError"
class_name unsupported_format = codes "UnsupportedFormatError"
class_name validation = codes "ValidationError"
class_name too_many_requests = codes "TooManyRequestsError"
class_name conversion_failed = codes "ConversionFailedError"
class_name upstream_llm = codes "UpstreamLLMError"
class_name service_unavailable = codes "ServiceUnavailableError"
class_name resource_exhausted = codes "ResourceExhaustedError"
class_name circuit_open = codes "CircuitOpenError"
class_name queue_full = codes "QueueFullError"
class_name gateway_timeout = codes "GatewayTimeoutError"

-- The base class; `none` at the root.
abbrev pub base : ErrorClass → Option ErrorClass
base docsifer_error = none
base resource_exhausted = some service_unavailable
base circuit_open = some service_unavailable
base queue_full = some service_unavailable
base _ = some docsifer_error

-- The `status_code` that a class body sets itself.
abbrev pub own_status : ErrorClass → Option ℕ
own_status docsifer_error = some 500
own_status invalid_input = some 400
own_status unauthorized = some 401
own_status forbidden = some 403
own_status not_found = some 404
own_status payload_too_large = some 413
own_status unsupported_format = some 415
own_status validation = some 422
own_status too_many_requests = some 429
own_status conversion_failed = some 500
own_status upstream_llm = some 502
own_status service_unavailable = some 503
own_status gateway_timeout = some 504
own_status _ = none

-- Attribute lookup along the base classes; the hierarchy is three deep.
inherited : ℕ → ErrorClass → Option ℕ
inherited zero c = none
inherited (suc n) c = elim (own_status c) [
  | some s ↦ some s
  | none ↦ elim (base c) [ none ↦ none | some b ↦ inherited n b ]
]

unfoldable pub status_code : ErrorClass → Option ℕ
unfolding inherited
status_code c = inherited 3 c

-- Every class body sets its own message.
unfoldable pub class_message : ErrorClass → Str
class_message docsifer_error = codes "Internal server error"
class_message invalid_input = codes "Invalid input"
class_message unauthorized = codes "Unauthorized"
class_message forbidden = codes "Forbidden"
class_message not_found = codes "Resource not found"
class_message payload_too_large = codes "Payload too large"
class_message unsupported_format = codes "Unsupported file format"
class_message validation = codes "Validation failed"
class_message too_many_requests = codes "Too many requests"
class_message conversion_failed = codes "Conversion failed"
class_message upstream_llm = codes "Upstream LLM error"
class_message service_unavailable = codes "Service unavailable"
class_message resource_exhausted = codes "Server resources are exhausted, please retry later"
class_message circuit_open = codes "Upstream temporarily unavailable"
class_message queue_full = codes "Server is busy, please retry later"
class_message gateway_timeout = codes "Upstream timeout"

pub data Detail : Type 0 where
  number : ℕ → Detail
  text : Str → Detail
  texts : List Str → Detail

abbrev pub Details : Type 0
Details = Dict Str Detail

pub record Error : Type 0 where
  pub error_class : ErrorClass
  pub message : Str
  pub public_message : Str
  pub details : Details

abbrev pub or_text : Str → Str → Str
or_text [] d = d
or_text (c ∷ s) d = c ∷ s

abbrev pub text_or : Option Str → Str → Str
text_or none d = d
text_or (some s) d = s

-- `DocsiferError.__init__`: an empty or missing message is the class's; `details` defaults to {}.
unfoldable pub make : ErrorClass → Option Str → Option Str → Details → Error
unfolding class_message
make c message public_message details = record {
  error_class = c;
  message = or_text (text_or message []) (class_message c);
  public_message = text_or public_message (class_message c);
  details = details;
}

-- `raise C(message, details={...})`
unfoldable pub raising : ErrorClass → Str → Details → Error
unfolding make
raising c message details = make c (some message) none details

-- What may be raised: a domain error; FastAPI's `HTTPException`, with its status and
-- `str(exc.detail)` or nothing if the detail is empty; a request that fails validation; or an
-- exception of any other class, with its name and its text.
pub data Raised : Type 0 where
  domain : Error → Raised
  http_exception : ℕ → Option Str → Raised
  request_validation : List Str → Raised
  unexpected : Str → Str → Raised

pub data Result {ℓ} (A : Type ℓ) : Type ℓ where
  ok : A → Result A
  err : Raised → Result A

abbrev pub throw {ℓ} : {A : Type ℓ} → ErrorClass → Str → Details → Result A
throw c message details = err (domain (raising c message details))

-- The class of a domain error.
abbrev pub class_of : Raised → Option ErrorClass
class_of (domain e) = some e.error_class
class_of _ = none
