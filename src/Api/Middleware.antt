-- ===== src/Api/Middleware.antt =====
-- internal/api: the middleware of middleware.go, requestid.go, audit.go, ratelimit.go and apikey.go, each
-- of which turns a handler into a handler.
pub mod Recorded
pub mod Refused
pub mod Served
use linkedin_api.Base.{
  ◌≡◌, refl, arith, ◌-◌, true, false, ◌||◌, none, some, List, [], ◌∷◌, ◌++◌, if◌then◌else◌, is_nil,
  Text, codes,
}
use linkedin_api.Domain.Errors.{Err, structured, internal, unauthorized, Cause}
use linkedin_api.Audit.Event.{new_event, set_rate_decision, decision_ip_limited}
use linkedin_api.Audit.Writer.{enqueue}
use linkedin_api.Api.RateLimit.{admit}
use linkedin_api.Api.ClientIp.{client_ip}
use linkedin_api.Api.Credential.{valid_key, extract_api_key}
use linkedin_api.Api.Errors.{Response, write_error}
use linkedin_api.Api.Http.{
  HttpRequest, Handler, Trace, Op, error_body, set_header, respond, perform_all,
}
use linkedin_api.Api.Recorder.{new_recorder, record_ops, recorded_status, write_json}
use linkedin_api.Api.Server.{
  Observation, Server, Platform, safe_request_id, new_request_id, route_label, deliver, with_event,
  now, ip_of, audit_record,
}

-- A middleware.
abbrev pub Layer : Type 0 → Type 0 → Type 0
Layer W L = Handler (Server W L) → Handler (Server W L)

-- The calls by which writeError writes a response.
unfoldable pub error_ops : Response → List (Op)
unfolding write_json
error_ops r = elim r.retry_after [
  | none ↦ write_json r.status (error_body r)
  | some t ↦ set_header (codes "Retry-After") t ∷ write_json r.status (error_body r)
]

module _ {W L : Type 0} where
  -- chain: the first middleware is the outermost.
  unfoldable pub chain : Handler (Server W L) → List (Layer W L) → Handler (Server W L)
  chain h [] = h
  chain h (m ∷ ms) = m (chain h ms)

  -- writeError
  unfoldable pub fail : Err → Handler (Server W L)
  unfolding write_error error_ops
  fail err req s =
      let (response, event) = write_error req.request_id err s.service.event in
      record { ops = error_ops response; returned = true; after = with_event event s }

  -- The middleware recoverer.
  unfoldable pub recoverer : Layer W L
  unfolding fail
  recoverer next req s =
      let t = next req s in
      let f : Trace (Server W L) = fail (structured (internal Cause.nil)) req (t.after) in
      if t.returned then t else record { ops = t.ops ++ f.ops; returned = true; after = f.after }

  module _ (p : Platform W L) where
    -- requestID
    unfoldable pub with_request_id : Layer W L
    unfolding safe_request_id new_request_id
    with_request_id next req s =
        let given = req.header (codes "X-Request-ID") in
        let id =
          if safe_request_id given then given else new_request_id (p.random s.service.world) in
        let t = next (record req { request_id = id }) s in
        record t { ops = set_header (codes "X-Request-ID") id ∷ t.ops }

    unfoldable pub observe : Layer W L
    unfolding record_ops recorded_status route_label client_ip
    observe next req s =
        let t = next req s in
        let (r, inner) = record_ops new_recorder t.ops in
        let seen : Observation = record {
          route = route_label req;
          method = req.method;
          status = recorded_status r;
          request_id = req.request_id;
          client_ip = ip_of p req;
          duration = now p t.after - now p s;
        } in
        if t.returned
        then record {
          ops = inner;
          returned = true;
          after = record (t.after) { observed = t.after.observed ++ (seen ∷ []) };
        }
        else record t { ops = inner }

    -- auditMiddleware. A panic of the handler inside passes through before anything is recorded.
    unfoldable pub audit : Layer W L
    unfolding record_ops recorded_status audit_record enqueue
    audit next req s =
        let t = next req (with_event (some new_event) s) in
        let (r, inner) = record_ops new_recorder t.ops in
        let rec = audit_record p s req (recorded_status r) t.after in
        let after = with_event s.service.event t.after in
        if t.returned
        then record {
          ops = inner;
          returned = true;
          after = record after {
            audited = after.audited ++ (rec ∷ []);
            recorder = deliver after.recorder rec;
          };
        }
        else record { ops = inner; returned = false; after = after }

    -- (*rateLimiter).middleware, keyed by the client's address.
    unfoldable pub limit_rate : Layer W L
    unfolding admit client_ip fail
    limit_rate next req s =
        let (refusal, buckets) =
          admit p.fresh p.allow s.buckets (ip_of p req) (p.pick s.service.world) (now p s) in
        let s1 = record s { buckets = buckets } in
        elim refusal [
          | none ↦ next req s1
          | some err ↦
              fail (structured err) req
                (with_event (set_rate_decision decision_ip_limited s1.service.event) s1)
        ]

  -- (*apiKeyAuth).middleware
  unfoldable pub require_key : List Text → Layer W L
  unfolding valid_key extract_api_key fail
  require_key keys next req s =
      let key =
        extract_api_key (req.header (codes "X-API-Key")) (req.header (codes "Authorization")) in
      if is_nil keys || valid_key keys key
      then next req s
      else fail (structured (unauthorized (codes "a valid API key is required"))) req s

  -- What the client gets for an error: one response, with the status of its code.
  pub respond-fail :
      (err : Err) (req : HttpRequest) (s : Server W L)
      → let t = fail err req s in
        let response = (write_error req.request_id err s.service.event).0 in
        ((respond t.ops).status ≡ some response.status)
        × ((respond t.ops).body ≡ error_body response ∷ [])
        × (t.returned ≡ true)
  unfolding fail error_ops write_json respond perform_all
  respond-fail err req s = ground arith
