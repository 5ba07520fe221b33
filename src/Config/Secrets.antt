-- ===== src/Config/Secrets.antt =====
-- internal/config/config.go: LogValue, by which the configuration is logged.
use linkedin_api.Base.{◌≡◌, refl, Bool, not, ◌&&◌, List, [], ◌∷◌, is_nil, Text, codes}
use linkedin_api.Base.Attr.{Attr, text, number, flag}
use linkedin_api.Config.{Configuration}

-- HasLinkedInSession
unfoldable pub has_linkedin_session : Configuration → Bool
has_linkedin_session c = not (is_nil c.linkedin.li_at) && not (is_nil c.linkedin.jsession_id)

unfoldable pub log_value : Configuration → List Attr
unfolding has_linkedin_session
log_value c =
    (codes "env", text c.env)
    ∷ (codes "server_port", number c.server.port)
    ∷ (codes "cache_enabled", flag c.cache.enabled)
    ∷ (codes "rate_limit_enabled", flag c.rate_limit.enabled)
    ∷ (codes "metrics_enabled", flag c.metrics_enabled)
    ∷ (codes "audit_enabled", flag c.audit.enabled)
    ∷ (codes "linkedin_session_present", flag (has_linkedin_session c))
    ∷ (codes "log_level", text c.log_level)
    ∷ []

-- The configuration with other secrets.
abbrev pub with_secrets : Text → Text → List Text → Configuration → Configuration
with_secrets li_at jsession_id keys c = record c {
  linkedin = record (c.linkedin) { li_at = li_at; jsession_id = jsession_id };
  audit = record (c.audit) { admin_keys = keys };
}

-- The logged value is the same for other secrets, as long as each cookie is given or not as before.
pub log_value-with_secrets :
    (li_at jsession_id : Text) (keys : List Text) (c : Configuration)
    → (is_nil li_at ≡ is_nil c.linkedin.li_at)
    → (is_nil jsession_id ≡ is_nil c.linkedin.jsession_id)
    → log_value (with_secrets li_at jsession_id keys c) ≡ log_value c
unfolding log_value
log_value-with_secrets li_at jsession_id keys c h k = rw (h, k) refl
