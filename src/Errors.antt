-- ===== src/Errors.antt =====
-- packages/core/src/types/error.ts, types/result.ts and runtime/result.ts: the error classes, the
-- status table, the `FlowpanelResult` envelope of an error, and the report of unexpected errors.
pub mod Report
pub mod Statuses
use flowpanel.Base.{ℕ, String, Option, none, some, List, ◌++◌, Result}
use flowpanel.Base.Value.{Value}
use Prim.Native.String.{◌++◌ as append}

pub data ErrorCode : Type 0 where
  bad_request unknown_field unauthenticated forbidden field_forbidden : ErrorCode
  operation_disabled not_found method_not_allowed conflict payload_too_large : ErrorCode
  unsupported_media_type validation_failed rate_limited internal : ErrorCode

-- `FLOWPANEL_ERROR_STATUS`.
unfoldable pub error_status : ErrorCode → ℕ
error_status bad_request = 400
error_status unknown_field = 400
error_status unauthenticated = 401
error_status forbidden = 403
error_status field_forbidden = 403
error_status operation_disabled = 403
error_status not_found = 404
error_status method_not_allowed = 405
error_status conflict = 409
error_status payload_too_large = 413
error_status unsupported_media_type = 415
error_status validation_failed = 422
error_status rate_limited = 429
error_status internal = 500

-- A constructor for each class; the base class is constructed with any code.
pub data FlowpanelError : Type 0 where
  base : ErrorCode → String → FlowpanelError
  validation : List (String × String) → String → FlowpanelError
  auth access missing clash rate_limit disabled : String → FlowpanelError
  unknown_field_error field_access : String → FlowpanelError

unfoldable pub error_code : FlowpanelError → ErrorCode
error_code (base c m) = c
error_code (validation fs m) = validation_failed
error_code (auth m) = unauthenticated
error_code (access m) = forbidden
error_code (missing m) = not_found
error_code (clash m) = conflict
error_code (rate_limit m) = rate_limited
error_code (disabled m) = operation_disabled
error_code (unknown_field_error f) = unknown_field
error_code (field_access f) = field_forbidden

unfoldable pub safe_message : FlowpanelError → String
safe_message (base c m) = m
safe_message (validation fs m) = m
safe_message (auth m) = m
safe_message (access m) = m
safe_message (missing m) = m
safe_message (clash m) = m
safe_message (rate_limit m) = m
safe_message (disabled m) = m
safe_message (unknown_field_error f) = append "Unknown field: \"" (append f "\".")
safe_message (field_access f) = append "Field \"" (append f "\" cannot be changed.")

-- What a `throw` or a rejected promise carries. A `js_error` names the `Error` object, or is `none`
-- for an object made at the throw, which no earlier report has seen.
pub data Thrown : Type 0 where
  known : FlowpanelError → Thrown
  js_error : Option ℕ → String → Thrown
  non_error : Value → Thrown

-- `throw new Error(message)`.
abbrev pub new_error : String → Thrown
new_error message = js_error none message

abbrev pub Throws : Type 0 → Type 0
Throws A = Result Thrown A

pub record ResultError : Type 0 where
  pub code : ErrorCode
  pub message : String
  pub request_id : String
  pub field_errors : Option (List (String × String))

abbrev field_errors_of : FlowpanelError → Option (List (String × String))
field_errors_of (validation fs m) = some fs
field_errors_of _ = none

-- The `error` of `errorResult(error, requestId)`.
unfoldable pub error_result : Thrown → String → ResultError
unfolding error_code safe_message
error_result (known e) id = record {
  code = error_code e;
  message = safe_message e;
  request_id = id;
  field_errors = field_errors_of e;
}
error_result _ id = record {
  code = internal;
  message = "Internal server error";
  request_id = id;
  field_errors = none;
}

-- `err instanceof FlowpanelError ? err.status : 500`.
unfoldable pub thrown_status : Thrown → ℕ
unfolding error_status error_code
thrown_status (known e) = error_status (error_code e)
thrown_status _ = 500
