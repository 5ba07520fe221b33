-- ===== src/Api/Router/Handlers.antt =====
-- internal/api: each middleware and each handler of the program answers by whole responses.
use linkedin_api.Base.{
  ◌-◌, ◌≤◌, inl, inr, ◌⊎◌, Bool, true, ◌||◌, Option, some, List, [], ◌∷◌, arith, if◌then◌else◌,
  is_nil, Text, codes, All, Bool-cases, Option-cases, Sum-cases,
}
use linkedin_api.Domain.{mode_text}
use linkedin_api.Domain.Errors.{
  Err, structured, internal, unauthorized, invalid, upstream_unavailable, cause,
}
use linkedin_api.Urlx.{Urls, ProfileRef, parse}
use linkedin_api.Service.State.{note, Outside, Flight, ProfileService}
use linkedin_api.Service.Profile.{get_profile}
use linkedin_api.Linkedin.Credential.{Credential, credential_mode}
use linkedin_api.Api.Credential.{caller_credential}
use linkedin_api.Api.Handler
use linkedin_api.Api.Handler.{err_no_url, Request, Reply, found, failed, handle, fail_with}
use linkedin_api.Api.Http.{HttpRequest, Handler, Op, set_header, write_header, write}
use linkedin_api.Api.Recorder.{Recorder, Final, write_json, record_op, record_ops, new_recorder}
use linkedin_api.Api.RateLimit.{admit}
use linkedin_api.Api.Server.{Server, Platform, with_event, ip_of, now}
use linkedin_api.Api.Middleware.{audit, limit_rate, require_key}
use linkedin_api.Api.Middleware.Recorded.{fail-Final, error_ops-Final, write_error-Final}
use linkedin_api.Api.Credential.{valid_key}
use linkedin_api.Api.Middleware.Refused.{given_key}
use linkedin_api.Audit.Event.{
  set_profile_id, set_credential, new_event, set_rate_decision, decision_ip_limited,
}
use linkedin_api.Api.Usage.{parse_window, parse_limit}
use linkedin_api.Base.Decimal.{atoi}
use linkedin_api.Api.Middleware.Served.{id}
use linkedin_api.Api.Image.{
  Target, Images, checked, proxy, handle_image, answer, accepted_host, in_world,
}
use linkedin_api.Api.Admin.{Querier, handle_usage, live, readyz}
use linkedin_api.Api.Router.{reply_ops}

-- A handler all of whose statuses are final.
abbrev pub Answers : {W L : Type 0} → Handler (Server W L) → Type 0
Answers {W} {L} h = (req : HttpRequest) (s : Server W L) → All Final (h req s).ops

abbrev pub AllAnswer : {W L : Type 0} → List (Text × Handler (Server W L)) → Type 0
AllAnswer {W} {L} rs = All (λ (r : Text × Handler (Server W L)). Answers r.1) rs

-- What a recorder hands on.
record_ops-Final : (r : Recorder) (ops : List Op) → All Final ops → All Final (record_ops r ops).1
unfolding record_ops record_op
record_ops-Final r [] f = tt
record_ops-Final r (set_header k v ∷ ops) f = (tt, record_ops-Final r ops f.1)
record_ops-Final r (write_header code ∷ ops) f = elim (Bool-cases r.wrote) [
  | inl e ↦ ground (arith, e, record_ops-Final r ops f.1)
  | inr e ↦
      ground (arith, e, f.0, record_ops-Final (record { status = code; wrote = true }) ops f.1)
]
record_ops-Final r (write b ∷ ops) f =
    (tt, record_ops-Final (if r.wrote then r else record { status = 200; wrote = true }) ops f.1)

module _ {W L : Type 0} (p : Platform W L) where
  pub audit-Answers : (next : Handler (Server W L)) → Answers next → Answers (audit p next)
  unfolding audit
  audit-Answers next a req s =
      let t = next req (with_event (some new_event) s) in
      let f = record_ops-Final new_recorder t.ops (a req (with_event (some new_event) s)) in
      elim (Bool-cases t.returned) [ inl e ↦ rw (e, audit) f | inr e ↦ rw (e, audit) f ]

  pub limit_rate-Answers :
      (next : Handler (Server W L)) → Answers next → Answers (limit_rate p next)
  unfolding limit_rate
  limit_rate-Answers next a req s =
      let r = admit p.fresh p.allow s.buckets (ip_of p req) (p.pick s.service.world) (now p s) in
      elim (Option-cases r.0) [
        | inl e ↦ rw (e, limit_rate) (a req (record s { buckets = r.1 }))
        | inr (err, e) ↦
            rw (e, limit_rate)
              (fail-Final (structured err) req (
                with_event (set_rate_decision decision_ip_limited s.service.event)
                  (record s { buckets = r.1 })))
      ]

pub require_key-Answers :
    {W L : Type 0} (keys : List Text) (next : Handler (Server W L))
    → Answers next
    → Answers (require_key keys next)
unfolding require_key
require_key-Answers keys next a req s =
    elim (Bool-cases (is_nil keys || valid_key keys (given_key req))) [
      | inl e ↦ rw (e, require_key) (a req s)
      | inr e ↦
          rw (e, require_key)
            (fail-Final (structured (unauthorized (codes "a valid API key is required"))) req s)
    ]

abbrev bad_url : Err
bad_url = structured (invalid (codes "image URL must use https://media.licdn.com"))

module _ {W L : Type 0} where
  pub answer-Answers : (r : Err ⊎ (Text × Text)) → Answers {W = W} {L = L} (answer r)
  answer-Answers (inl err) req s = fail-Final err req s
  answer-Answers (inr (ct, b)) req s = omega arith

  pub proxy-Answers : (c : Images W) (target : Target) → Answers {W = W} {L = L} (proxy c target)
  unfolding proxy
  proxy-Answers c target req s = elim (Bool-cases (c.is_request target.text)) [
    | inr e ↦
        rw (e, proxy) (fail-Final (structured (invalid (codes "image URL is malformed"))) req s)
    | inl e ↦
        let w = (c.send s.service.world target.text).1 in
        elim (Sum-cases (c.send s.service.world target.text).0) [
          | inl (err, a) ↦
              rw (e, a, proxy)
                (fail-Final (structured (upstream_unavailable (cause err))) req (in_world w s))
          | inr (resp, a) ↦
              rw (e, a, proxy) (answer-Answers (checked c.media_type resp) req (in_world w s))
        ]
  ]

  pub handle_image-Answers : (c : Images W) → Answers {W = W} {L = L} (handle_image c)
  unfolding handle_image proxy
  handle_image-Answers c req s = elim (Option-cases (c.parse_url (req.query (codes "url")))) [
    | inl e ↦ rw (e, handle_image) (fail-Final bad_url req s)
    | inr (target, e) ↦ elim (Bool-cases (accepted_host target)) [
      | inr a ↦ rw (e, a, handle_image) (fail-Final bad_url req s)
      | inl a ↦ rw (e, a, handle_image) (proxy-Answers c target req s)
    ]
  ]

  pub handle_usage-Answers : (p : Platform W L) (q : Querier W) → Answers (handle_usage p q)
  unfolding handle_usage write_json
  handle_usage-Answers p q req s =
      let span = parse_window (q.parse_duration (req.query (codes "window"))) in
      let limit = parse_limit (atoi (req.query (codes "limit"))) in
      let since = now p s - span in
      let w = s.service.world in
      let failed = λ (err : Err). fail-Final (structured (internal (cause err))) req s in
      elim (Sum-cases (q.summary w since)) [
        | inl (err, a) ↦ rw (a, handle_usage) (failed err)
        | inr (u, a) ↦ elim (Sum-cases (q.top_profiles w since limit)) [
          | inl (err, b) ↦ rw (a, b, handle_usage) (failed err)
          | inr (x, b) ↦ elim (Sum-cases (q.top_clients w since limit)) [
            | inl (err, c) ↦ rw (a, b, c, handle_usage) (failed err)
            | inr (y, c) ↦ elim (Sum-cases (q.top_upstream_clients w since limit)) [
              | inl (err, d) ↦ rw (a, b, c, d, handle_usage) (failed err)
              | inr (z, d) ↦ rw (a, b, c, d, handle_usage) (omega arith)
            ]
          ]
        ]
      ]

  pub live-Answers : Answers {W = W} {L = L} live
  unfolding live write_json
  live-Answers req s = omega arith

  pub readyz-Answers : (ready : Option (W → Bool)) → Answers {W = W} {L = L} (readyz ready)
  unfolding readyz write_json
  readyz-Answers ready req s = ground arith

-- The replies of the profile handler.
abbrev pub Whole : Reply → Type 0
Whole (failed r) = 200 ≤ r.status
Whole (found result) = Unit {0}

pub reply_ops-Final : (r : Reply) → Whole r → All Final (reply_ops r)
unfolding reply_ops write_json
reply_ops-Final (failed r) h = error_ops-Final r h
reply_ops-Final (found result) h = omega arith

module _ {W : Type 0} (u : Urls) (quote mac : Text → Text) (o : Outside W) (allow : Bool) where
  fail_with-Whole : (id : Text) (err : Err) (s : ProfileService W) → Whole (fail_with id err s).0
  unfolding fail_with
  fail_with-Whole id err s = write_error-Final id err s.event

  serve-Whole :
      (flight : Flight) (req : Request) (ref : ProfileRef) (cred : Credential)
      (s : ProfileService W)
      → Whole (Handler.serve u quote mac o allow flight req ref cred s).0
  unfolding Handler.serve
  serve-Whole flight req ref cred s =
      let s1 = note (set_profile_id ref.public_id) s in
      let s2 = note (set_credential (mode_text (credential_mode cred)) cred.fingerprint) s1 in
      let r = get_profile o flight s2 ref cred in
      elim (Sum-cases r.0) [
        | inl (err, e) ↦ rw (e, Handler.serve) (fail_with-Whole req.request_id err r.1)
        | inr (result, e) ↦ rw (e, Handler.serve) tt
      ]

  pub handle-Whole :
      (flight : Flight) (req : Request) (s : ProfileService W)
      → Whole (handle u quote mac o allow flight req s).0
  unfolding handle
  handle-Whole flight req s = elim (Bool-cases (is_nil req.url)) [
    | inl e ↦ rw (handle, e) (fail_with-Whole req.request_id err_no_url s)
    | inr e ↦ elim (Sum-cases (parse u req.url)) [
      | inl (err, q) ↦ rw (handle, e, q) (fail_with-Whole req.request_id (structured err) s)
      | inr (ref, q) ↦ elim (Sum-cases (caller_credential quote mac req.headers allow)) [
        | inl (err, c) ↦ rw (handle, e, q, c) (fail_with-Whole req.request_id (structured err) s)
        | inr (cred, c) ↦ rw (handle, e, q, c) (serve-Whole flight req ref cred s)
      ]
    ]
  ]
