-- ===== src/Audit/Log.antt =====
-- internal/audit/log.go: the attributes of the line that Log writes for a record; a nil
-- logger writes none.
use linkedin_api.Base.{List, [], ◌∷◌, codes}
use linkedin_api.Base.Int.{pos}
use linkedin_api.Base.Attr.{Attr, text, number, flag}
use linkedin_api.Audit.Event.{Record}
use linkedin_api.Audit.Store.{milliseconds}

unfoldable pub log_attrs : Record → List Attr
log_attrs r =
    (codes "request_id", text r.request_id)
    ∷ (codes "client_ip", text r.client_ip)
    ∷ (codes "key_id", text r.key_id)
    ∷ (codes "profile_id", text r.profile_id)
    ∷ (codes "credential_mode", text r.credential_mode)
    ∷ (codes "cred_fp", text r.cred_fp)
    ∷ (codes "status", number (pos r.status))
    ∷ (codes "rate_decision", text r.rate_decision)
    ∷ (codes "cached", flag r.cached)
    ∷ (codes "upstream_called", flag r.upstream_called)
    ∷ (codes "upstream_outcome", text r.upstream_outcome)
    ∷ (codes "retries", number (pos r.retries))
    ∷ (codes "latency_ms", number (pos (milliseconds r.latency)))
    ∷ (codes "error_class", text r.error_class)
    ∷ (codes "sections", text r.sections)
    ∷ []
