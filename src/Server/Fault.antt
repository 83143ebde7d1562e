-- ===== src/Server/Fault.antt =====
-- internal/service/errors.go, and how internal/service/world.go and internal/service/http.go answer
-- an error of the world authority.
use xiuxian.Base.{ℕ, String}
use xiuxian.World.Model.{
  Error, conflict, invalid, unauthenticated, not_alive, idempotency_key, not_found, forbidden,
  target_ineligible, rate_limited, stale_command,
}

-- kratoserrors.Error
pub record Fault : Type 0 where
  pub code : ℕ
  pub reason : String
  pub message : String

abbrev pub fault_of : ℕ → String → String → Fault
fault_of code reason message = record { code = code; reason = reason; message = message }

abbrev pub reason_invalid_command : String
reason_invalid_command = "INVALID_COMMAND"

abbrev pub reason_stale_or_conflicting : String
reason_stale_or_conflicting = "STALE_OR_CONFLICTING_COMMAND"

unfoldable pub error_bad_request : String → Fault
error_bad_request = fault_of 400 reason_invalid_command

unfoldable pub error_target_required : String → Fault
error_target_required = fault_of 400 "TARGET_REQUIRED"

unfoldable pub error_unauthorized : String → Fault
error_unauthorized = fault_of 401 "AUTH_REQUIRED"

unfoldable pub error_not_found : String → Fault
error_not_found = fault_of 404 "NOT_FOUND"

unfoldable pub error_forbidden : String → Fault
error_forbidden = fault_of 403 "FORBIDDEN"

unfoldable pub error_precondition_failed : String → Fault
error_precondition_failed = fault_of 412 reason_stale_or_conflicting

unfoldable pub error_rate_limited : String → Fault
error_rate_limited = fault_of 429 "RATE_LIMITED"

unfoldable pub error_rate_limit_unavailable : String → Fault
error_rate_limit_unavailable = fault_of 503 "RATE_LIMIT_UNAVAILABLE"

unfoldable pub error_internal : String → Fault
error_internal = fault_of 500 "INTERNAL"

-- err.Error() of the errors that core.go declares; the others' texts do not leave the server.
unfoldable pub error_text : Error → String
error_text conflict = "resource already exists"
error_text invalid = "invalid request"
error_text unauthenticated = "authentication required"
error_text not_alive = "role is not alive"
error_text idempotency_key = "idempotency key is required"
error_text not_found = "resource not found"
error_text forbidden = "action is not allowed"
error_text target_ineligible = "target is out of range or no longer eligible"
error_text rate_limited = "rate limit exceeded"
error_text stale_command = "command expectation is stale"
error_text e = ""

unfoldable pub map_error : Error → Fault
map_error invalid = error_bad_request (error_text invalid)
map_error idempotency_key = error_bad_request (error_text idempotency_key)
map_error unauthenticated = error_unauthorized (error_text unauthenticated)
map_error not_found = error_not_found (error_text not_found)
map_error forbidden = error_forbidden (error_text forbidden)
map_error target_ineligible = error_forbidden (error_text target_ineligible)
map_error conflict = error_precondition_failed (error_text conflict)
map_error not_alive = error_precondition_failed (error_text not_alive)
map_error stale_command = error_precondition_failed (error_text stale_command)
map_error rate_limited = error_rate_limited (error_text rate_limited)
map_error e = error_internal "internal error"

-- The status and the text of writeServiceError.
unfoldable pub service_error : Error → ℕ × String
service_error invalid = (400, error_text invalid)
service_error idempotency_key = (400, error_text idempotency_key)
service_error unauthenticated = (401, error_text unauthenticated)
service_error not_found = (404, error_text not_found)
service_error rate_limited = (429, error_text rate_limited)
service_error e = (500, "internal error")
