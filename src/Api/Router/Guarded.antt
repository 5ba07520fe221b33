-- ===== src/Api/Router/Guarded.antt =====
-- internal/api/router.go: the usage query is behind the configured keys.
use linkedin_api.Base.{◌≡◌, ◌≢◌, refl, sym, subst, true, false, some, is_nil, codes, All}
use linkedin_api.Api.Http.{HttpRequest, respond}
use linkedin_api.Api.Server.{Server, with_event}
use linkedin_api.Api.Middleware.{require_key}
use linkedin_api.Api.Middleware.Refused.{given_key, require_key-refused}
use linkedin_api.Api.Admin.{Querier, handle_usage}
use linkedin_api.Api.Router.{Deps, is_get, routes, usage_routes, find_route, dispatch}
use linkedin_api.Api.Router.Audited.{dispatch_to}

module _ {W L : Type 0} (d : Deps W L) (req : HttpRequest) (s : Server W L) where
  usage_route :
      (q : Querier W)
      → req.path ≡ codes "/admin/usage"
      → d.usage ≡ some q
      → is_nil d.admin_keys ≡ false
      → find_route d req.path (routes d)
        ≡ some (require_key d.admin_keys (handle_usage d.platform q))
  unfolding find_route routes usage_routes
  usage_route q p u k = rw (u, k, p) refl

  -- With an audit store and admin keys configured, a GET or HEAD request for /admin/usage whose key
  -- is none of them is answered by 401 and changes nothing but its own audit event.
  pub dispatch-Unauthorized :
      (q : Querier W)
      → d.clean_path req.path ≡ req.path
      → is_get req ≡ true
      → req.path ≡ codes "/admin/usage"
      → d.usage ≡ some q
      → is_nil d.admin_keys ≡ false
      → All (λ k. k ≢ given_key req) d.admin_keys
      → ((respond (dispatch d req s).ops).status ≡ some 401)
        × (with_event s.service.event (dispatch d req s).after ≡ s)
  dispatch-Unauthorized q c g p u k a =
      let h = require_key d.admin_keys (handle_usage d.platform q) in
      subst (λ t. ((respond t.ops).status ≡ some 401) × (with_event s.service.event t.after ≡ s))
        (sym (dispatch_to d req h s c g (usage_route q p u k)))
        (require_key-refused d.admin_keys (handle_usage d.platform q) req s k a)
