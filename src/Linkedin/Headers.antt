-- ===== src/Linkedin/Headers.antt =====
-- internal/linkedin/client.go: what NewClient makes of the configuration, the headers of a request, and
-- the debug line about them. Values are the first of each name.
use linkedin_api.Base.{
  not, Option, none, some, List, [], ◌∷◌, ◌++◌, ◌==◌, if◌then◌else◌, is_nil, Text, codes, split,
  cut, join, trim_right, trim_space,
}
use linkedin_api.Base.Dict.{Dict, get, put}
use linkedin_api.Base.Attr.{Attr, text, flag}
use linkedin_api.Domain.{mode_text}
use linkedin_api.Config.{LinkedinConfig}
use linkedin_api.Linkedin.Credential.{
  Session, Credential, credential_mode, user_agent_or, session_for,
}

abbrev pub fallback_user_agent : Text
fallback_user_agent =
    codes "Mozilla/5.0 (X11; Linux x86_64) AppleWebKit/537.36 "
    ++ codes "(KHTML, like Gecko) Chrome/124.0.0.0 Safari/537.36"

abbrev pub default_accept_language : Text
default_accept_language = codes "en-US,en;q=0.9"

abbrev pub or_default : Text → Text → Text
or_default v def = if is_nil v then def else v

-- The fields of Client that say what is sent.
pub record Settings : Type 0 where
  pub base_url : Text
  pub session : Option Session
  pub user_agent : Text
  pub accept_language : Text

-- NewClient
unfoldable pub new_client : LinkedinConfig → Option Session → Settings
unfolding trim_right
new_client cfg session = record {
  base_url = trim_right (λ c. c == b'/') cfg.base_url;
  session = session;
  user_agent = or_default cfg.user_agent fallback_user_agent;
  accept_language = or_default cfg.accept_language default_accept_language;
}

abbrev pub Headers : Type 0
Headers = Dict Text

-- (*Session).apply
unfoldable pub apply : Session → Headers → Headers
unfolding put
apply s h = put (codes "Csrf-Token") s.csrf_token (put (codes "Cookie") s.cookie_header h)

-- (Credential).applyTo
unfoldable pub apply_to : Credential → Option Session → Headers → Headers
unfolding apply
apply_to cred server h = elim (session_for cred server) [ none ↦ h | some s ↦ apply s h ]

unfoldable pub set_headers : Settings → Text → Credential → Headers
unfolding apply_to put
set_headers c accept cred = apply_to cred c.session (
    put (codes "X-Li-Lang") (codes "en_US") (
      put (codes "X-RestLi-Protocol-Version") (codes "2.0.0") (
        put (codes "Accept-Language") c.accept_language (
          put (codes "User-Agent") (user_agent_or cred c.user_agent)
            (put (codes "Accept") accept [])))))

-- The names among the parts of a Cookie header.
unfoldable pub names : List Text → List Text
unfolding trim_space cut
names [] = []
names (part ∷ parts) =
    let rest = names parts in
    elim (cut (λ c. c == b'=') (trim_space part)) [
      | none ↦ rest
      | some (k, v) ↦ if is_nil k then rest else k ∷ rest
    ]

unfoldable pub cookie_names : Text → Text
unfolding split names
cookie_names cookie = if is_nil cookie then [] else join (names (split b';' cookie))

-- http.Header.Get
abbrev pub header : Text → Headers → Text
header name h = elim (get name h) [ none ↦ [] | some v ↦ v ]

unfoldable pub log_request : Text → Headers → Credential → List Attr
unfolding cookie_names get
log_request endpoint h cred =
    (codes "endpoint", text endpoint)
    ∷ (codes "credential_mode", text (mode_text (credential_mode cred)))
    ∷ (codes "user_agent", text (header (codes "User-Agent") h))
    ∷ (codes "accept", text (header (codes "Accept") h))
    ∷ (codes "accept_language", text (header (codes "Accept-Language") h))
    ∷ (codes "x_li_lang", text (header (codes "X-Li-Lang") h))
    ∷ (codes "x_restli_protocol_version", text (header (codes "X-RestLi-Protocol-Version") h))
    ∷ (codes "cookies", text (cookie_names (header (codes "Cookie") h)))
    ∷ (codes "has_csrf_token", flag (not (is_nil (header (codes "Csrf-Token") h))))
    ∷ []
