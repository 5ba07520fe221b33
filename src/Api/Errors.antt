-- ===== src/Api/Errors.antt =====
-- internal/api/errors.go: the status of a code, and the response for an error.
use linkedin_api.Base.{ℕ, Option, none, some, ltb, if◌then◌else◌, Text}
use linkedin_api.Domain.Errors.{
  Error, Err, cause, as_error, internal, error_code, error_message, error_retry_after, code_text,
  Code, code_invalid_request, code_unauthorized, code_caller_session_invalid,
  code_profile_not_found, code_rate_limited, code_upstream_auth_failed, code_upstream_rate_limited,
  code_upstream_timeout, code_upstream_unavailable, code_upstream_parse_error, code_internal,
}
use linkedin_api.Base.Decimal.{itoa}
use linkedin_api.Audit.Event.{Event, set_error}

unfoldable pub status_for : Code → ℕ
status_for code_invalid_request = 400
status_for code_unauthorized = 401
status_for code_caller_session_invalid = 401
status_for code_profile_not_found = 404
status_for code_rate_limited = 429
status_for code_upstream_rate_limited = 429
status_for code_upstream_auth_failed = 502
status_for code_upstream_parse_error = 502
status_for code_upstream_timeout = 504
status_for code_upstream_unavailable = 503
status_for code_internal = 500

-- The error envelope with its status and the header Retry-After.
pub record Response : Type 0 where
  pub status : ℕ
  pub retry_after : Option Text
  pub code : Code
  pub message : Text
  pub request_id : Text

unfoldable pub write_error : Text → Err → Option Event → Response × Option Event
unfolding as_error status_for itoa code_text
write_error request_id err event =
    let de : Error = elim (as_error err) [ none ↦ internal (cause err) | some e ↦ e ] in
    (
      record {
        status = status_for (error_code de);
        retry_after =
            if ltb 0 (error_retry_after de) then some (itoa (error_retry_after de)) else none;
        code = error_code de;
        message = error_message de;
        request_id = request_id;
      },
      set_error (code_text (error_code de)) event,
    )
