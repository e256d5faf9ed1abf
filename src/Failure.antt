-- ===== src/Failure.antt =====
-- src/common/errors: `AppException`, the error codes and the code that a status has by default
-- (app.exception.ts, error-code.ts, validation.ts), and the results of code that may throw.
-- The texts of an exception are left out; the fields that a 422 names are kept.
mod Effects
pub mod Laws
pub use Effects.*
use flyer_g_be.Base.{ℕ, ◌==◌, leb, if◌then◌else◌, String, Bool, true, false, List, [], ◌∷◌}

pub data ErrorCode : Type 0 where
  invalid_request unauthenticated forbidden not_found conflict payload_too_large : ErrorCode
  validation_failed rate_limited server_error already_submitted : ErrorCode
  idempotency_key_reused daily_limit_exceeded not_resubmittable in_use : ErrorCode

-- `FieldErrors`: the path of each field that is wrong. The text under the field is left out, so an
-- assignment to a field that is there already changes nothing.
abbrev pub FieldErrors : Type 0
FieldErrors = List String

-- `Object.keys(errors).length > 0`
abbrev pub has_errors : FieldErrors → Bool
has_errors [] = false
has_errors (field ∷ errors) = true

pub record AppException : Type 0 where
  pub status : ℕ
  pub code : ErrorCode
  pub fields : FieldErrors

-- `defaultCodeForStatus`
unfoldable pub default_code_for_status : ℕ → ErrorCode
default_code_for_status status =
    if status == 401
    then unauthenticated
    else if status == 403
    then forbidden
    else if status == 404
    then not_found
    else if status == 409
    then conflict
    else if status == 413
    then payload_too_large
    else if status == 422
    then validation_failed
    else if status == 429
    then rate_limited
    else if leb 500 status
    then server_error
    else invalid_request

-- `validationFailed`
abbrev pub validation_failure : FieldErrors → AppException
validation_failure fields = record { status = 422; code = validation_failed; fields = fields }

-- `new AppException(status, code, …)` without fields
abbrev pub exception : ℕ → ErrorCode → AppException
exception status code = record { status = status; code = code; fields = [] }
