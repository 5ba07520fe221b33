-- ===== src/Api/Router/Limited.antt =====
-- internal/api/router.go: what the router does with a request that the rate limiter refuses.
use linkedin_api.Base.{◌≡◌, refl, sym, subst, true, ◌||◌, ◌⊎◌, inl, inr, codes}
use linkedin_api.Api.Http.{HttpRequest, Handler}
use linkedin_api.Api.Server.{Server}
use linkedin_api.Api.Middleware.{chain}
use linkedin_api.Api.Middleware.Refused.{Limited, refused, audit-Limited}
use linkedin_api.Api.Image.{handle_image}
use linkedin_api.Api.Router.{
  Deps, is_get, profile_endpoint, api_layers, routes, find_route, dispatch,
}
use linkedin_api.Api.Router.Audited.{dispatch_to}

module _ {W L : Type 0} (d : Deps W L) (req : HttpRequest) (s : Server W L) where
  layers-Limited :
      (h : Handler (Server W L))
      → (d.audit_enabled || d.has_recorder) ≡ true
      → d.rate_limit_enabled ≡ true
      → refused d.platform req s ≡ true
      → Limited d.platform req s (chain h (api_layers d) req s)
  unfolding chain api_layers
  layers-Limited h on r f = rw (on, r) (audit-Limited d.platform h req s f)

  -- With auditing and rate limiting on, a GET or HEAD request for a profile or an image that the
  -- rate limiter refuses is answered by 429, leaves the service as it was, and is audited by one
  -- record that tells the status, the limiter's decision and the error class, and no upstream call;
  -- the recorder gets it if there is one.
  pub dispatch-Limited :
      (d.audit_enabled || d.has_recorder) ≡ true
      → d.rate_limit_enabled ≡ true
      → d.clean_path req.path ≡ req.path
      → is_get req ≡ true
      → (req.path ≡ codes "/v1/profile") ⊎ (req.path ≡ codes "/v1/image")
      → refused d.platform req s ≡ true
      → Limited d.platform req s (dispatch d req s)
  unfolding find_route routes
  dispatch-Limited on r c g (inl p) f =
      subst (Limited d.platform req s)
        (sym (dispatch_to d req (chain (profile_endpoint d) (api_layers d)) s c g (rw p refl)))
        (layers-Limited (profile_endpoint d) on r f)
  dispatch-Limited on r c g (inr p) f =
      subst (Limited d.platform req s)
        (sym (dispatch_to d req (chain (handle_image d.images) (api_layers d)) s c g (rw p refl)))
        (layers-Limited (handle_image d.images) on r f)
