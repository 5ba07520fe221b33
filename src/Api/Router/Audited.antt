-- ===== src/Api/Router/Audited.antt =====
-- internal/api/router.go: every request to a route of the public API leaves one audit record.
use linkedin_api.Base.{
  ◌||◌, ◌≡◌, refl, sym, ap, ◌∙◌, subst, ◌⊎◌, inl, inr, true, some, [], ◌∷◌, ◌++◌, arith, Text,
  codes, text_eq, text_eq_iff, Bool-cases, Option-cases, Sum-cases,
}
use linkedin_api.Domain.Errors.{Err, structured, invalid, upstream_unavailable, cause}
use linkedin_api.Audit.Event.{Record, new_event, set_rate_decision, decision_ip_limited}
use linkedin_api.Api.RateLimit.{admit}
use linkedin_api.Api.Http.{HttpRequest, Handler, Trace, respond}
use linkedin_api.Api.Server.{Server, Platform, with_event, ip_of, now, deliver}
use linkedin_api.Api.Middleware.{chain, audit, limit_rate, fail}
use linkedin_api.Api.Middleware.Recorded.{audit-Told}
use linkedin_api.Api.Image.{
  Target, Images, checked, proxy, handle_image, answer, accepted_host, in_world,
}
use linkedin_api.Api.Router.{
  Deps, is_get, profile_endpoint, api_layers, routes, find_route, dispatch,
}
use linkedin_api.Api.Router.Handlers.{Answers, limit_rate-Answers, handle_image-Answers}
use linkedin_api.Api.Router.Answers.{profile_endpoint-Answers}

-- A handler that returns and leaves the audit log and the recorder to the middleware.
record Quiet {W L : Type 0} (s : Server W L) (t : Trace (Server W L)) : Type 0 where
  returned : t.returned ≡ true
  audited : t.after.audited ≡ s.audited
  recorder : t.after.recorder ≡ s.recorder

module _ {W L : Type 0} where
  fail-Quiet : (err : Err) (req : HttpRequest) (s : Server W L) → Quiet s (fail err req s)
  unfolding fail
  fail-Quiet err req s = record { returned = refl; audited = refl; recorder = refl }

  answer-Quiet :
      (r : Err ⊎ (Text × Text)) (req : HttpRequest) (s : Server W L) → Quiet s (answer r req s)
  answer-Quiet (inl err) req s = fail-Quiet err req s
  answer-Quiet (inr (ct, b)) req s = record { returned = refl; audited = refl; recorder = refl }

  limit_rate-Quiet :
      (p : Platform W L) (next : Handler (Server W L)) (req : HttpRequest)
      → ((s : Server W L) → Quiet s (next req s))
      → (s : Server W L) → Quiet s (limit_rate p next req s)
  unfolding limit_rate
  limit_rate-Quiet p next req q s =
      let r = admit p.fresh p.allow s.buckets (ip_of p req) (p.pick s.service.world) (now p s) in
      elim (Option-cases r.0) [
        | inl e ↦
            let s1 = record s { buckets = r.1 } in
            let k = q s1 in
            rw (e, limit_rate)
              (record { returned = k.returned; audited = k.audited; recorder = k.recorder })
        | inr (err, e) ↦
            let s1 =
              with_event (set_rate_decision decision_ip_limited s.service.event)
                (record s { buckets = r.1 }) in
            let k = fail-Quiet (structured err) req s1 in
            rw (e, limit_rate)
              (record { returned = k.returned; audited = k.audited; recorder = k.recorder })
      ]

  -- A world that moved on does not matter.
  in_world-Quiet :
      (w : W) (s : Server W L) (t : Trace (Server W L)) → Quiet (in_world w s) t → Quiet s t
  in_world-Quiet w s t q = record {
    returned = q.returned;
    audited = q.audited;
    recorder = q.recorder;
  }

  proxy-Quiet :
      (c : Images W) (target : Target) (req : HttpRequest) (s : Server W L)
      → Quiet s (proxy c target req s)
  unfolding proxy
  proxy-Quiet c target req s = elim (Bool-cases (c.is_request target.text)) [
    | inr e ↦
        rw (e, proxy) (fail-Quiet (structured (invalid (codes "image URL is malformed"))) req s)
    | inl e ↦
        let w = (c.send s.service.world target.text).1 in
        let s1 = in_world w s in
        elim (Sum-cases (c.send s.service.world target.text).0) [
          | inl (err, a) ↦
              let f = structured (upstream_unavailable (cause err)) in
              rw (e, a, proxy) (in_world-Quiet w s (fail f req s1) (fail-Quiet f req s1))
          | inr (resp, a) ↦
              let r = checked c.media_type resp in
              rw (e, a, proxy) (in_world-Quiet w s (answer r req s1) (answer-Quiet r req s1))
        ]
  ]

  handle_image-Quiet :
      (c : Images W) (req : HttpRequest) (s : Server W L) → Quiet s (handle_image c req s)
  unfolding handle_image
  handle_image-Quiet c req s =
      let refusal =
        fail-Quiet (structured (invalid (codes "image URL must use https://media.licdn.com"))) req
          s in
      elim (Option-cases (c.parse_url (req.query (codes "url")))) [
        | inl e ↦ rw (e, handle_image) refusal
        | inr (target, e) ↦ elim (Bool-cases (accepted_host target)) [
          | inr a ↦ rw (e, a, handle_image) refusal
          | inl a ↦ rw (e, a, handle_image) (proxy-Quiet c target req s)
        ]
      ]

module _ {W L : Type 0} (req : HttpRequest) where
  -- The one record of a request, with the status that its client got.
  pub record OneRecord (s : Server W L) (t : Trace (Server W L)) : Type 0 where
    pub entry : Record
    pub log : t.after.audited ≡ s.audited ++ (entry ∷ [])
    pub stored : t.after.recorder ≡ deliver s.recorder entry
    pub status : (respond t.ops).status ≡ some entry.status
    pub request_id : entry.request_id ≡ req.request_id

module _ {W L : Type 0} (d : Deps W L) (req : HttpRequest) where
  profile_endpoint-Quiet : (s : Server W L) → Quiet s (profile_endpoint d req s)
  unfolding profile_endpoint
  profile_endpoint-Quiet s = record { returned = refl; audited = refl; recorder = refl }

  audited :
      (h : Handler (Server W L))
      → Answers h
      → ((s : Server W L) → Quiet s (h req s))
      → (s : Server W L) → OneRecord req s (audit d.platform h req s)
  audited h a q s =
      let s1 = with_event (some new_event) s in
      let quiet = q s1 in
      elim (audit-Told d.platform h req s (a req s1)).1 [
        | inr (panicked, r) ↦ absurd (ground (arith, panicked, quiet.returned))
        | inl (returned, r) ↦ record {
          entry = r.entry;
          log = r.log ∙ ap (λ l. l ++ (r.entry ∷ [])) quiet.audited;
          stored = r.stored ∙ ap (λ w. deliver w r.entry) quiet.recorder;
          status = r.status;
          request_id = r.request_id;
        }
      ]

  layers-audited :
      (h : Handler (Server W L))
      → (d.audit_enabled || d.has_recorder) ≡ true
      → Answers h
      → ((s : Server W L) → Quiet s (h req s))
      → (s : Server W L) → OneRecord req s (chain h (api_layers d) req s)
  unfolding chain api_layers
  layers-audited h on a q s = elim (Bool-cases d.rate_limit_enabled) [
    | inl r ↦
        rw (on, r)
          (audited (limit_rate d.platform h) (limit_rate-Answers d.platform h a)
            (limit_rate-Quiet d.platform h req q) s)
    | inr r ↦ rw (on, r) (audited h a q s)
  ]

  pub dispatch_to :
      (h : Handler (Server W L)) (s : Server W L)
      → d.clean_path req.path ≡ req.path
      → is_get req ≡ true
      → find_route d req.path (routes d) ≡ some h
      → dispatch d req s ≡ h req s
  unfolding dispatch
  dispatch_to h s c g f =
      let clean : text_eq (d.clean_path req.path) req.path ≡ true =
        (text_eq_iff (d.clean_path req.path) req.path).1 c in
      rw (clean, g, f, dispatch) refl

  -- With auditing on or a recorder given, every GET or HEAD request for a profile or an image, be
  -- it answered, refused by the rate limiter or failed, leaves exactly one audit record, with the
  -- status that the client gets and the request's id, and the recorder gets it if there is one.
  pub dispatch-OneRecord :
      (s : Server W L)
      → (d.audit_enabled || d.has_recorder) ≡ true
      → d.clean_path req.path ≡ req.path
      → is_get req ≡ true
      → (req.path ≡ codes "/v1/profile") ⊎ (req.path ≡ codes "/v1/image")
      → OneRecord req s (dispatch d req s)
  unfolding find_route routes
  dispatch-OneRecord s on c g (inl p) =
      let h = chain (profile_endpoint d) (api_layers d) in
      subst (OneRecord req s) (sym (dispatch_to h s c g (rw p refl))) (
        layers-audited (profile_endpoint d) on (profile_endpoint-Answers d) profile_endpoint-Quiet
          s)
  dispatch-OneRecord s on c g (inr p) =
      let h = chain (handle_image d.images) (api_layers d) in
      subst (OneRecord req s) (sym (dispatch_to h s c g (rw p refl))) (
        layers-audited (handle_image d.images) on (handle_image-Answers d.images)
          (handle_image-Quiet d.images req) s)
