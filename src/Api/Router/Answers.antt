-- ===== src/Api/Router/Answers.antt =====
-- internal/api/router.go: every handler of the program answers by whole responses, so that every request
-- is served as the outer layers promise.
use linkedin_api.Base.{
  ◌≡◌, subst, inl, inr, not, ◌||◌, some, List, [], ◌∷◌, arith, if◌then◌else◌, is_nil, is_some, Text,
  codes, text_eq, All-append, Bool-cases, Option-cases,
}
use mathlib.Core.Option.{some-injective}
use linkedin_api.Api.Http.{HttpRequest, Handler}
use linkedin_api.Api.Server.{Filled, Server}
use linkedin_api.Api.Middleware.{chain, limit_rate}
use linkedin_api.Api.Middleware.Served.{id, Served, outer-Served}
use linkedin_api.Api.Image.{handle_image}
use linkedin_api.Api.Admin.{handle_usage}
use linkedin_api.Api.Router.{
  Deps, request_of, is_get, usage_routes, profile_endpoint, api_layers, routes, find_route,
  serve_ui, dispatch, serve,
}
use linkedin_api.Api.Router.Handlers.{
  Answers, AllAnswer, audit-Answers, handle-Whole, handle_image-Answers, handle_usage-Answers,
  limit_rate-Answers, live-Answers, readyz-Answers, reply_ops-Final, require_key-Answers,
}

module _ {W L : Type 0} (d : Deps W L) where
  pub profile_endpoint-Answers : Answers (profile_endpoint d)
  unfolding profile_endpoint
  profile_endpoint-Answers req s =
      let flight = d.flight req s.service.world in
      reply_ops-Final _ (
        handle-Whole d.urls d.quote d.mac d.outside d.allow_caller flight (request_of req)
          s.service)

  api_layers-Answers : (h : Handler (Server W L)) → Answers h → Answers (chain h (api_layers d))
  unfolding chain api_layers
  api_layers-Answers h a = elim (Bool-cases (d.audit_enabled || d.has_recorder)) [
    | inl e ↦ elim (Bool-cases d.rate_limit_enabled) [
      | inl r ↦
          rw (e, r)
            (audit-Answers d.platform (limit_rate d.platform h) (limit_rate-Answers d.platform h a))
      | inr r ↦ rw (e, r) (audit-Answers d.platform h a)
    ]
    | inr e ↦ elim (Bool-cases d.rate_limit_enabled) [
      | inl r ↦ rw (e, r) (limit_rate-Answers d.platform h a)
      | inr r ↦ rw (e, r) a
    ]
  ]

  find_route-Answers :
      (path : Text) (rs : List (Text × Handler (Server W L))) (h : Handler (Server W L))
      → AllAnswer rs
      → find_route d path rs ≡ some h
      → Answers h
  unfolding find_route
  find_route-Answers path [] h a e = cc
  find_route-Answers path ((at, g) ∷ rs) h a e = elim (Bool-cases (text_eq at path)) [
    | inl t ↦ subst Answers (some-injective _ _ (rw (t, find_route) at e)) (a.0)
    | inr t ↦ find_route-Answers path rs h a.1 (rw (t, find_route) at e)
  ]

  usage_routes-Answers : AllAnswer (usage_routes d)
  unfolding usage_routes
  usage_routes-Answers = elim (Option-cases d.usage) [
    | inl u ↦ rw (u, usage_routes) tt
    | inr (q, u) ↦ elim (Bool-cases (is_nil d.admin_keys)) [
      | inl k ↦ rw (u, k, usage_routes) tt
      | inr k ↦
          rw (u, k, usage_routes)
            (
              require_key-Answers d.admin_keys (handle_usage d.platform q)
                  (handle_usage-Answers d.platform q),
              tt,
            )
    ]
  ]

  metrics-Answers :
      Answers d.metrics_handler
      → AllAnswer (if d.metrics_enabled then (codes "/metrics", d.metrics_handler) ∷ [] else [])
  metrics-Answers m = elim (Bool-cases d.metrics_enabled) [ inl e ↦ rw e (m, tt) | inr e ↦ rw e tt ]

  routes-Answers : Answers d.metrics_handler → AllAnswer (routes d)
  unfolding routes
  routes-Answers m = (
    api_layers-Answers (profile_endpoint d) profile_endpoint-Answers,
    (
      api_layers-Answers (handle_image d.images) (handle_image-Answers d.images),
      (
        live-Answers,
        (
          readyz-Answers d.ready,
          All-append (λ (r : Text × Handler (Server W L)). Answers r.1) (usage_routes d) _
              usage_routes-Answers (metrics-Answers m),
        ),
      ),
    ),
  )

  dispatch-Answers :
      Answers d.metrics_handler
      → ((files : Handler (Server W L)) → d.ui ≡ some files → Answers files)
      → Answers (dispatch d)
  unfolding dispatch serve_ui
  dispatch-Answers m ui req s = elim (Bool-cases (not (text_eq (d.clean_path req.path) req.path))) [
    | inl c ↦ rw (c, dispatch) (omega arith)
    | inr c ↦ elim (Bool-cases (is_get req)) [
      | inr g ↦
          let known = is_some (find_route d req.path (routes d)) || is_some d.ui in
          elim (Bool-cases known) [
            | inl k ↦ rw (c, g, k, dispatch) (omega arith)
            | inr k ↦ rw (c, g, k, dispatch) (omega arith)
          ]
      | inl g ↦ elim (Option-cases (find_route d req.path (routes d))) [
        | inr (r, e) ↦
            rw (c, g, e, dispatch)
              (find_route-Answers req.path (routes d) r (routes-Answers m) e req s)
        | inl e ↦ elim (Option-cases d.ui) [
          | inl u ↦ rw (c, g, e, u, dispatch) (omega arith)
          | inr (files, u) ↦ rw (c, g, e, u, dispatch) (tt, ui files u req s)
        ]
      ]
    ]
  ]

  -- If the metrics handler and the file server send only statuses of whole responses, and rand.Read
  -- fills its 16 bytes or fails, every request to the router is answered under a request id that is
  -- safe to log, and counted once, with the status that the client gets; and if a handler panics
  -- before it writes, headers that it set apart, the client gets as status and body the generic
  -- internal error.
  pub serve-Served :
      ((w : W) → Filled (d.platform.random w))
      → Answers d.metrics_handler
      → ((files : Handler (Server W L)) → d.ui ≡ some files → Answers files)
      → (req : HttpRequest) (s : Server W L) → Served d.platform (dispatch d) req s (serve d req s)
  unfolding serve
  serve-Served r m ui req s =
      outer-Served d.platform (dispatch d) req s (r s.service.world)
        (dispatch-Answers m ui (record req { request_id = id d.platform (dispatch d) req s }) s)
