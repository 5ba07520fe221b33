-- ===== src/Api/Middleware/Served.antt =====
-- internal/api/router.go: the outer layers of every request, requestID, observe and recoverer, around
-- any handler.
use linkedin_api.Base.{
  ◌-◌, ◌≡◌, refl, ap, ◌∙◌, ◌⊎◌, inl, inr, Bool, true, false, not, ◌||◌, some, List, [], ◌∷◌, ◌++◌,
  if◌then◌else◌, Bool-cases, All, Text, codes,
}
use linkedin_api.Domain.Errors.{structured, internal, Cause}
use linkedin_api.Api.Errors.{Response, write_error}
use linkedin_api.Api.Http.{
  HttpRequest, Handler, Trace, Op, error_body, respond, respond-set_header, only_headers,
  respond-only_headers,
}
use linkedin_api.Api.Recorder.{new_recorder, record_ops, recorded_status, Final, respond-record_ops}
use linkedin_api.Api.Server.{Observation, Server, Platform, route_label, ip_of, now}
use linkedin_api.Api.Middleware.{observe, recoverer, with_request_id, fail, chain}
use linkedin_api.Api.Server.{safe_request_id, new_request_id, Filled, safe-new_request_id}
use linkedin_api.Api.Middleware.Recorded.{recoverer-Final, recoverer-returned, recoverer-observed}
use linkedin_api.Api.Middleware.{respond-fail}

-- What NewRouter puts around the routes.
unfoldable pub outer : {W L : Type 0} → Platform W L → Handler (Server W L) → Handler (Server W L)
unfolding chain with_request_id observe recoverer
outer p h = chain h (with_request_id p ∷ observe p ∷ recoverer ∷ [])

silent :
    (b : Bool) (ops : List Op)
    → ((b || not (only_headers ops)) ≡ true) ⊎ ((b ≡ false) × (only_headers ops ≡ true))
silent true ops = inl refl
silent false ops = elim (Bool-cases (only_headers ops)) [
  | inl e ↦ inr (refl, e)
  | inr e ↦ inl (ap (λ x. not x) e)
]

module _ {W L : Type 0} (p : Platform W L) (h : Handler (Server W L)) (req : HttpRequest)
    (s : Server W L) where
  -- The id that the request goes by: the given one if it is safe, and a random one if not.
  abbrev pub id : Text
  id =
      let given = req.header (codes "X-Request-ID") in
      if safe_request_id given then given else new_request_id (p.random s.service.world)

  -- The handler's run.
  abbrev pub inner : Trace (Server W L)
  inner = h (record req { request_id = id }) s

  -- The status and the body are those of the generic error.
  pub record Generic (t : Trace (Server W L)) : Type 0 where
    pub response : Response
    pub body : (respond t.ops).body ≡ error_body response ∷ []
    pub message : response.message ≡ codes "an unexpected internal error occurred"
    pub status : (respond t.ops).status ≡ some 500

  -- What every request leaves, whatever its handler does.
  pub record Served (t : Trace (Server W L)) : Type 0 where
    pub seen : Observation
    pub returned : t.returned ≡ true
    pub observed : t.after.observed ≡ inner.after.observed ++ (seen ∷ [])
    pub status : (respond t.ops).status ≡ some seen.status
    pub request_id : seen.request_id ≡ id
    pub safe : safe_request_id id ≡ true
    pub panicked : ((inner.returned || not (only_headers inner.ops)) ≡ true) ⊎ Generic t

  mid : Trace (Server W L)
  mid = recoverer h (record req { request_id = id }) s

  mid-panicked :
      inner.returned ≡ false
      → let f : Trace (Server W L) =
          fail (structured (internal Cause.nil)) (record req { request_id = id }) inner.after in
        mid.ops ≡ inner.ops ++ f.ops
  unfolding mid recoverer
  mid-panicked e = rw (e, recoverer) refl

  id-safe : Filled (p.random s.service.world) → safe_request_id id ≡ true
  id-safe r = elim (Bool-cases (safe_request_id (req.header (codes "X-Request-ID")))) [
    | inl e ↦ rw e e
    | inr e ↦ rw e (safe-new_request_id (p.random s.service.world) r)
  ]

  -- A handler that sends only statuses of whole responses, behind the outer layers.
  pub outer-Served :
      Filled (p.random s.service.world) → All Final inner.ops → Served (outer p h req s)
  unfolding outer chain with_request_id observe mid
  outer-Served r f =
      let req' = record req { request_id = id } in
      let (same, st) = respond-record_ops mid.ops (recoverer-Final h req' s f) in
      let back = recoverer-returned h req' s in
      let (one, two) =
        respond-set_header (codes "X-Request-ID") id (record_ops new_recorder mid.ops).1 in
      let status = one ∙ ap (λ x. x.status) same in
      let seen : Observation = record {
        route = route_label req';
        method = req.method;
        status = recorded_status (record_ops new_recorder mid.ops).0;
        request_id = id;
        client_ip = ip_of p req;
        duration = now p mid.after - now p s;
      } in
      rw (back, observe)
        (record {
          seen = seen;
          returned = refl;
          observed = ap (λ x. x ++ (seen ∷ [])) (recoverer-observed h req' s);
          status = status ∙ st;
          request_id = refl;
          safe = id-safe r;
          panicked = elim (silent inner.returned inner.ops) [
            | inl x ↦ inl x
            | inr (e, n) ↦
                let failed = respond-fail (structured (internal Cause.nil)) req' inner.after in
                let ops = mid-panicked e in
                let apart = respond-only_headers inner.ops _ n in
                inr (record {
                  response =
                      (write_error id (structured (internal Cause.nil))
                        inner.after.service.event).0;
                  body =
                      two
                      ∙ ap (λ x. x.body) same
                      ∙ ap (λ x. (respond x).body) ops
                      ∙ apart.1
                      ∙ failed.1;
                  message = refl;
                  status = status ∙ ap (λ x. (respond x).status) ops ∙ apart.0 ∙ failed.0;
                })
          ];
        })
