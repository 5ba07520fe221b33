-- ===== src/Domain/Errors.antt =====
-- internal/domain/errors.go: codes, the structured error, its constructors, and the search for one
-- in an error chain.
use linkedin_api.Base.{ℕ, Text, codes, Option, none, some}

pub data Code : Type 0 where
  code_invalid_request code_unauthorized code_caller_session_invalid : Code
  code_profile_not_found code_rate_limited : Code
  code_upstream_auth_failed code_upstream_rate_limited code_upstream_timeout : Code
  code_upstream_unavailable code_upstream_parse_error code_internal : Code

-- The text of a code, as clients and the audit trail see it.
unfoldable pub code_text : Code → Text
code_text code_invalid_request = codes "invalid_request"
code_text code_unauthorized = codes "unauthorized"
code_text code_caller_session_invalid = codes "caller_session_invalid"
code_text code_profile_not_found = codes "profile_not_found"
code_text code_rate_limited = codes "rate_limited"
code_text code_upstream_auth_failed = codes "upstream_auth_failed"
code_text code_upstream_rate_limited = codes "upstream_rate_limited"
code_text code_upstream_timeout = codes "upstream_timeout"
code_text code_upstream_unavailable = codes "upstream_unavailable"
code_text code_upstream_parse_error = codes "upstream_parse_error"
code_text code_internal = codes "internal_error"

-- An `error` value: a plain one, one that wraps another by `%w`, or a structured one. `cause` is
-- what the field `cause` holds, which may be nil.
mutual
  pub data Err : Type 0 where
    plain : Text → Err
    wrapped : Text → Err → Err
    structured : Error → Err

  pub data Error : Type 0 where
    mk_error : Code → Text → ℕ → Cause → Error

  pub data Cause : Type 0 where
    nil : Cause
    cause : Err → Cause

abbrev pub error_code : Error → Code
error_code (mk_error c m r e) = c

abbrev pub error_message : Error → Text
error_message (mk_error c m r e) = m

abbrev pub error_retry_after : Error → ℕ
error_retry_after (mk_error c m r e) = r

-- newError
abbrev pub new_error : Code → Text → Cause → Error
new_error c msg e = mk_error c msg 0 e

abbrev pub with_retry_after : ℕ → Error → Error
with_retry_after r (mk_error c m _ e) = mk_error c m r e

abbrev pub invalid : Text → Error
invalid msg = new_error code_invalid_request msg nil

abbrev pub unauthorized : Text → Error
unauthorized msg = new_error code_unauthorized msg nil

abbrev pub caller_session_invalid : Text → Error
caller_session_invalid msg = new_error code_caller_session_invalid msg nil

abbrev pub not_found : Text → Error
not_found msg = new_error code_profile_not_found msg nil

abbrev pub rate_limited : Text → ℕ → Error
rate_limited msg retry_after = with_retry_after retry_after (new_error code_rate_limited msg nil)

abbrev pub internal : Cause → Error
internal e = new_error code_internal (codes "an unexpected internal error occurred") e

abbrev pub upstream_auth : Cause → Error
upstream_auth e =
    new_error code_upstream_auth_failed (codes "authentication with LinkedIn failed") e

abbrev pub upstream_rate_limited : ℕ → Cause → Error
upstream_rate_limited retry_after e = with_retry_after retry_after (
    new_error code_upstream_rate_limited (codes "LinkedIn rate limit reached, please retry later")
      e)

abbrev pub upstream_timeout : Cause → Error
upstream_timeout e = new_error code_upstream_timeout (codes "the request to LinkedIn timed out") e

abbrev pub upstream_unavailable : Cause → Error
upstream_unavailable e =
    new_error code_upstream_unavailable (codes "LinkedIn is temporarily unavailable") e

abbrev pub upstream_parse : Cause → Error
upstream_parse e =
    new_error code_upstream_parse_error (codes "could not parse the LinkedIn response") e

-- AsError: the first structured error of the chain.
unfoldable pub as_error : Err → Option Error
as_error (plain m) = none
as_error (wrapped m e) = as_error e
as_error (structured e) = some e

-- (*Error).Unwrap
pub unwrap : Error → Cause
unwrap (mk_error c m r e) = e
