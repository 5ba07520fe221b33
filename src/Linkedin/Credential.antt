-- ===== src/Linkedin/Credential.antt =====
-- internal/linkedin/credential.go and session.go. `quote` is the verb %q of package fmt and `mac` the
-- hexadecimal form of HMAC-SHA256 under the process's key.
use linkedin_api.Base.{
  ℕ, zero, suc, ◌≡◌, refl, inl, inr, Bool, true, false, Option, none, some, [], ◌∷◌, ◌++◌, ◌==◌,
  if◌then◌else◌, Bool-cases, is_nil, Text, codes,
}
use linkedin_api.Base.{trim, trim_left, trim_right}
use linkedin_api.Domain.{CredentialMode, mode_server, mode_caller}

pub record Session : Type 0 where
  pub csrf_token : Text
  pub cookie_header : Text

abbrev pub is_quote : ℕ → Bool
is_quote c = c == b'"'

unfoldable pub new_session : (Text → Text) → Text → Text → Session
unfolding trim
new_session quote li_at jsession_id =
    let csrf = trim is_quote jsession_id in
    record {
      csrf_token = csrf;
      cookie_header = codes "li_at=" ++ (li_at ++ (codes "; JSESSIONID=" ++ quote csrf));
    }

-- `mode` is absent for the zero value of the string.
pub record Credential : Type 0 where
  pub mode : Option CredentialMode
  pub session : Option Session
  pub user_agent : Text
  pub fingerprint : Text

abbrev pub server_credential : Credential
server_credential = record {
  mode = some mode_server;
  session = none;
  user_agent = [];
  fingerprint = [];
}

-- s[:n] for a text that is long enough
abbrev pub take : ℕ → Text → Text
take zero s = []
take (suc n) [] = []
take (suc n) (c ∷ s) = c ∷ take n s

unfoldable pub fingerprint_of : (Text → Text) → Text → Text → Text
unfolding trim
fingerprint_of mac li_at jsession_id =
    codes "cs_" ++ take 16 (mac (li_at ++ (0 ∷ trim is_quote jsession_id)))

unfoldable pub new_caller_credential : (Text → Text) → (Text → Text) → Text → Text → Credential
unfolding new_session fingerprint_of
new_caller_credential quote mac li_at jsession_id = record {
  mode = some mode_caller;
  session = some (new_session quote li_at jsession_id);
  user_agent = [];
  fingerprint = fingerprint_of mac li_at jsession_id;
}

abbrev pub with_user_agent : Text → Credential → Credential
with_user_agent ua c = record c { user_agent = ua }

abbrev pub credential_mode : Credential → CredentialMode
credential_mode c = elim c.mode [ none ↦ mode_server | some m ↦ m ]

abbrev pub is_caller : Credential → Bool
is_caller c = elim c.mode [ some mode_caller ↦ true | _ ↦ false ]

abbrev pub user_agent_or : Credential → Text → Text
user_agent_or c fallback = if is_nil c.user_agent then fallback else c.user_agent

-- The session that authenticates a request; without one, no headers are set.
abbrev pub session_for : Credential → Option Session → Option Session
session_for c server = elim c.session [ none ↦ server | some s ↦ some s ]

trim_right-last :
    (p : ℕ → Bool) (s : Text) (c : ℕ) → p c ≡ true → trim_right p (s ++ (c ∷ [])) ≡ trim_right p s
unfolding trim_right
trim_right-last p [] c h = rw h refl
trim_right-last p (d ∷ s) c h = rw (trim_right-last p s c h) refl

trim-last : (p : ℕ → Bool) (s : Text) (c : ℕ) → p c ≡ true → trim p (s ++ (c ∷ [])) ≡ trim p s
unfolding trim trim_left trim_right
trim-last p [] c h = rw h refl
trim-last p (d ∷ s) c h = elim (Bool-cases (p d)) [
  | inl e ↦ rw e (trim-last p s c h)
  | inr e ↦ rw e (trim_right-last p (d ∷ s) c h)
]

-- A caller's credential is the same whether the JSESSIONID was supplied in quotes or not: the same
-- session, and so the same fingerprint and health record.
pub new_caller_credential-quoted :
    (quote mac : Text → Text) (li_at jsession_id : Text)
    → new_caller_credential quote mac li_at (b'"' ∷ (jsession_id ++ (b'"' ∷ [])))
      ≡ new_caller_credential quote mac li_at jsession_id
unfolding new_caller_credential new_session fingerprint_of trim trim_left
new_caller_credential-quoted quote mac li_at jsession_id =
    rw (trim-last is_quote jsession_id b'"' refl) refl
