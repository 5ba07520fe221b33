-- ===== src/Domain.antt =====
-- internal/domain: the credential mode, the error values, and the profile types.
pub mod Errors
pub mod Profile
use linkedin_api.Base.{Text, codes}

-- credential.go
pub data CredentialMode : Type 0 where
  mode_server mode_caller : CredentialMode

abbrev pub mode_text : CredentialMode → Text
mode_text mode_server = codes "server_session"
mode_text mode_caller = codes "caller_session"
