-- ===== src/Api/Errors.antt =====
-- app/api/errors.py: the exception handlers. A message is a text for people and is left out; the
-- status, the code, the detail and the headers are kept. The logging has no effect on the answer.
use jarvis_skill_registry.Prelude.{
  ℕ, Text, codes, ◌==◌, Option, none, some, List, [], ◌∷◌, map, if◌then◌else◌,
}
use jarvis_skill_registry.Core.Errors.{Result, ok, err, Exception, ErrorCode, DomainError, Detail}
use jarvis_skill_registry.Database.Constraints.{Db}
use jarvis_skill_registry.Core.Security.{Security}
use jarvis_skill_registry.Session.{World, Session}
use jarvis_skill_registry.Api.Routes.{Request, Response}
use jarvis_skill_registry.Api.Auth.{serve}

-- One entry of `RequestValidationError.errors()`: each key may be missing.
pub record ValidationIssue : Type 0 where
  pub loc : Option (List Text)
  pub msg : Option Text
  pub kind : Option Text

-- The same entry as it is reported.
pub record ReportedIssue : Type 0 where
  pub location : List Text
  pub message : Text
  pub kind : Text

pub data ErrorDetail : Type 0 where
  nothing : ErrorDetail
  structured : Detail → ErrorDetail
  errors : List ReportedIssue → ErrorDetail

-- The `error` object of the envelope.
pub record ErrorBody : Type 0 where
  pub code : ErrorCode
  pub detail : ErrorDetail

pub record ErrorAnswer : Type 0 where
  pub status_code : ℕ
  pub content : ErrorBody
  pub headers : List (Text × Text)

-- What reaches the handlers: an exception of the services, FastAPI's validation error, Starlette's
-- HTTP exception with its status and headers, or any other.
pub data Raised : Type 0 where
  exception : Exception → Raised
  validation : List ValidationIssue → Raised
  http : ℕ → List (Text × Text) → Raised
  other : Raised

abbrev pub or_else {ℓ} : {A : Type ℓ} → A → Option A → A
or_else d none = d
or_else d (some a) = a

abbrev pub report : ValidationIssue → ReportedIssue
report i = record {
  location = or_else [] i.loc;
  message = or_else [] i.msg;
  kind = or_else [] i.kind;
}

-- `_STATUS_CODES.get(status_code, ErrorCode.INTERNAL_ERROR)`
unfoldable pub status_code_of : ℕ → ErrorCode
status_code_of n =
    if n == 401
    then ErrorCode.auth_required
    else if n == 403
    then ErrorCode.not_org_owner
    else if n == 404
    then ErrorCode.not_found
    else if n == 405
    then ErrorCode.method_not_allowed
    else if n == 422
    then ErrorCode.validation_error
    else ErrorCode.internal_error

abbrev pub envelope : ErrorCode → ErrorDetail → ErrorBody
envelope c d = record { code = c; detail = d }

abbrev pub bearer : List (Text × Text)
bearer = (codes "WWW-Authenticate", codes "Bearer") ∷ []

-- `_domain_error`
unfoldable pub domain_error : DomainError → ErrorAnswer
domain_error e = record {
  status_code = e.status_code;
  content = envelope e.code (ErrorDetail.structured e.detail);
  headers = if e.status_code == 401 then bearer else [];
}

-- `_unhandled`
abbrev pub unhandled : ErrorAnswer
unhandled = record {
  status_code = 500;
  content = envelope ErrorCode.internal_error ErrorDetail.nothing;
  headers = [];
}

-- `_integrity_error`
abbrev pub integrity_error : ErrorAnswer
integrity_error = record {
  status_code = 409;
  content = envelope ErrorCode.constraint_violation ErrorDetail.nothing;
  headers = [];
}

-- `_immutable_version`
abbrev pub immutable_version_error : ErrorAnswer
immutable_version_error = record {
  status_code = 409;
  content = envelope ErrorCode.active_version_immutable ErrorDetail.nothing;
  headers = [];
}

-- The handler of the exception's class.
unfoldable pub exception_handlers : Raised → ErrorAnswer
unfolding domain_error status_code_of
exception_handlers (Raised.exception (Exception.domain e)) = domain_error e
exception_handlers (Raised.exception (Exception.integrity k)) = integrity_error
exception_handlers (Raised.exception Exception.immutable_version) = immutable_version_error
exception_handlers (Raised.exception Exception.stale_data) = unhandled
exception_handlers (Raised.exception Exception.multiple_results) = unhandled
exception_handlers (Raised.exception Exception.value_error) = unhandled
exception_handlers (Raised.validation issues) = record {
  status_code = 422;
  content = envelope ErrorCode.validation_error (ErrorDetail.errors (map report issues));
  headers = [];
}
exception_handlers (Raised.http status headers) = record {
  status_code = status;
  content = envelope (status_code_of status) ErrorDetail.nothing;
  headers = headers;
}
exception_handlers Raised.other = unhandled

-- `status_code=` of the route decorators.
abbrev pub success_status : Request → ℕ
success_status (Request.create_skill payload) = 201
success_status (Request.create_version skill_id payload) = 201
success_status _ = 200

-- What the client gets.
pub data HttpAnswer : Type 0 where
  success : ℕ → Response → HttpAnswer
  failure : ErrorAnswer → HttpAnswer

abbrev pub answer : Request → Result Response → HttpAnswer
answer request (ok body) = HttpAnswer.success (success_status request) body
answer request (err e) = HttpAnswer.failure (exception_handlers (Raised.exception e))

-- A request from its credentials to the answer of the server and the state that it leaves.
unfoldable pub respond : World → Security → Option Text → Request → Db → ℕ → HttpAnswer × Session
unfolding serve exception_handlers
respond w c credentials request db tick =
    let (r, s) = serve w c credentials request db tick in (answer request r, s)
