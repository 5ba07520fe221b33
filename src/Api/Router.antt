-- ===== src/Api/Router.antt =====
-- internal/api/router.go and profile_handler.go's endpoint: the routes, each behind its middleware, and
-- the outer layers. http.ServeMux takes a pattern `GET /x` for GET and HEAD; a path that is not clean is
-- redirected. The handler of the Prometheus registry and the file server of the UI are parameters.
pub mod Handlers
pub mod Answers
pub mod Audited
pub mod Guarded
pub mod Limited
mod Tests
use linkedin_api.Base.{
  ℕ, ◌⊎◌, inl, inr, Bool, true, false, not, ◌&&◌, ◌||◌, Option, none, some, List, [], ◌∷◌, ◌++◌,
  if◌then◌else◌, is_nil, is_some, Text, codes, text_eq,
}
use linkedin_api.Urlx.{Urls}
use linkedin_api.Service.State.{Outside, Flight}
use linkedin_api.Api.Credential.{Headers}
use linkedin_api.Api.Handler
use linkedin_api.Api.Handler.{Request, Reply, found, failed, handle}
use linkedin_api.Api.Http.{
  HttpRequest, Handler, Trace, Op, profile_body, bytes, set_header, write_header, write,
}
use linkedin_api.Api.Recorder.{write_json}
use linkedin_api.Api.Server.{Server, Platform}
use linkedin_api.Api.Middleware.{Layer, chain, audit, limit_rate, require_key, error_ops}
use linkedin_api.Api.Middleware.Served.{outer}
use linkedin_api.Api.Image.{Images, handle_image}
use linkedin_api.Api.Admin.{Querier, handle_usage, live, readyz}

-- Deps, with the configuration's fields that are read. `has_recorder` tells whether Recorder is given.
pub record Deps (W L : Type 0) : Type 0 where
  pub platform : Platform W L
  pub urls : Urls
  pub quote : Text → Text
  pub mac : Text → Text
  pub outside : Outside W
  pub flight : HttpRequest → W → Flight
  pub images : Images W
  pub ready : Option (W → Bool)
  pub usage : Option (Querier W)
  pub metrics_handler : Handler (Server W L)
  pub ui : Option (Handler (Server W L))
  pub clean_path : Text → Text
  pub allow_caller : Bool
  pub audit_enabled : Bool
  pub has_recorder : Bool
  pub rate_limit_enabled : Bool
  pub metrics_enabled : Bool
  pub admin_keys : List Text

-- The calls by which net/http answers for the mux, without the header that names the methods allowed.
abbrev pub plain_error : ℕ → Text → List Op
plain_error status msg =
    set_header (codes "Content-Type") (codes "text/plain; charset=utf-8")
    ∷ write_header status
    ∷ write (bytes msg)
    ∷ []

unfoldable pub reply_ops : Reply → List Op
unfolding error_ops write_json
reply_ops (failed r) = error_ops r
reply_ops (found result) = write_json 200 (profile_body result)

-- What the profile handler reads of a request.
abbrev pub request_of : HttpRequest → Request
request_of req = record {
  url = req.query (codes "url");
  headers = record {
    li_at = req.header (codes "X-LinkedIn-Li-At");
    jsession_id = req.header (codes "X-LinkedIn-JSESSIONID");
    user_agent = req.header (codes "X-LinkedIn-User-Agent");
  };
  request_id = req.request_id;
}

abbrev pub is_get : HttpRequest → Bool
is_get req = text_eq req.method (codes "GET") || text_eq req.method (codes "HEAD")

module _ {W L : Type 0} where
  abbrev pub answer_ops : List Op → Handler (Server W L)
  answer_ops ops req s = record { ops = ops; returned = true; after = s }

  module _ (d : Deps W L) where
    -- (*profileHandler).handle on its request and its writer.
    unfoldable pub profile_endpoint : Handler (Server W L)
    unfolding handle reply_ops
    profile_endpoint req s =
        let flight = d.flight req s.service.world in
        let (reply, service) =
          handle d.urls d.quote d.mac d.outside d.allow_caller flight (request_of req) s.service in
        record { ops = reply_ops reply; returned = true; after = record s { service = service } }

    -- apiMW: auditing around rate limiting, each if it is on.
    unfoldable pub api_layers : List (Layer W L)
    unfolding audit limit_rate
    api_layers =
        (if d.audit_enabled || d.has_recorder then audit d.platform ∷ [] else [])
        ++ (if d.rate_limit_enabled then limit_rate d.platform ∷ [] else [])

    -- The usage query, if there is a store and a key is configured.
    unfoldable pub usage_routes : List (Text × Handler (Server W L))
    unfolding handle_usage require_key
    usage_routes = elim d.usage [
      | none ↦ []
      | some q ↦
          if is_nil d.admin_keys
          then []
          else (codes "/admin/usage", require_key d.admin_keys (handle_usage d.platform q)) ∷ []
    ]

    -- The routes for GET and HEAD, by their exact paths.
    unfoldable pub routes : List (Text × Handler (Server W L))
    unfolding profile_endpoint handle_image live readyz api_layers chain usage_routes
    routes =
        (codes "/v1/profile", chain profile_endpoint api_layers)
        ∷ (codes "/v1/image", chain (handle_image d.images) api_layers)
        ∷ (codes "/healthz", live)
        ∷ (codes "/readyz", readyz d.ready)
        ∷ (usage_routes
            ++ (if d.metrics_enabled then (codes "/metrics", d.metrics_handler) ∷ [] else []))

    unfoldable pub find_route :
        Text → List (Text × Handler (Server W L)) → Option (Handler (Server W L))
    unfolding text_eq
    find_route path [] = none
    find_route path ((at, h) ∷ rs) = if text_eq at path then some h else find_route path rs

    -- The route `GET /`.
    unfoldable pub serve_ui : Handler (Server W L) → Handler (Server W L)
    serve_ui files req s =
        let t = files req s in
        record t { ops = set_header (codes "Cache-Control") (codes "no-cache") ∷ t.ops }

    abbrev no_route : Bool → Handler (Server W L)
    no_route known = answer_ops (
        if known
        then plain_error 405 (codes "Method Not Allowed")
        else plain_error 404 (codes "404 page not found"))

    -- The mux. The query of a redirect's location and its body are left out.
    unfoldable pub dispatch : Handler (Server W L)
    unfolding routes find_route serve_ui
    dispatch req s =
        let found_route = find_route req.path routes in
        if not (text_eq (d.clean_path req.path) req.path)
        then answer_ops
            (set_header (codes "Location") (d.clean_path req.path) ∷ write_header 301 ∷ []) req s
        else if is_get req
        then elim found_route [
          | some h ↦ h req s
          | none ↦ elim d.ui [ some files ↦ serve_ui files req s | none ↦ no_route false req s ]
        ]
        else no_route (is_some found_route || is_some d.ui) req s

    -- NewRouter
    unfoldable pub serve : Handler (Server W L)
    unfolding dispatch outer
    serve = outer d.platform dispatch
