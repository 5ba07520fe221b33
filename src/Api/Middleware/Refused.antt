-- ===== src/Api/Middleware/Refused.antt =====
-- internal/api/ratelimit.go and apikey.go: requests that the rate limiter or the key check turns away.
use linkedin_api.Base.{
  ◌≡◌, ◌≢◌, refl, sym, ap, ◌∙◌, inl, inr, Bool, true, false, ◌||◌, some, List, [], ◌∷◌, ◌++◌, arith,
  Bool-cases, is_nil, is_some, All, Text, codes, any, text_eq, text_eq_iff,
}
use mathlib.Core.Option.{some-injective}
use linkedin_api.Domain.Errors.{Error, structured, rate_limited, unauthorized, as_error, code_text}
use linkedin_api.Audit.Event.{Record, new_event, decision_ip_limited}
use linkedin_api.Api.Credential.{valid_key, extract_api_key}
use linkedin_api.Api.RateLimit.{admit}
use linkedin_api.Api.Errors.{write_error, status_for}
use linkedin_api.Api.Http.{HttpRequest, Handler, Trace, respond}
use linkedin_api.Api.Recorder.{new_recorder, record_ops, recorded_status, respond-record_ops}
use linkedin_api.Api.Server.{Server, Platform, deliver, with_event, audit_record, ip_of, now}
use linkedin_api.Api.Middleware.{audit, limit_rate, require_key, fail, respond-fail}
use linkedin_api.Api.Middleware.Recorded.{fail-Final}

abbrev slow_down : Error
slow_down = rate_limited (codes "rate limit exceeded, please slow down") 1

module _ {W L : Type 0} (p : Platform W L) (req : HttpRequest) (s : Server W L) where
  -- Whether the limiter refuses the request's address now.
  abbrev pub refused : Bool
  refused =
      is_some (admit p.fresh p.allow s.buckets (ip_of p req) (p.pick s.service.world) (now p s)).0

  -- A request that was refused for its rate: the service as it was, and a record that says so.
  pub record Limited (t : Trace (Server W L)) : Type 0 where
    pub status : (respond t.ops).status ≡ some 429
    pub service : t.after.service ≡ s.service
    pub entry : Record
    pub log : t.after.audited ≡ s.audited ++ (entry ∷ [])
    pub stored : t.after.recorder ≡ deliver s.recorder entry
    pub recorded : entry.status ≡ 429
    pub decision : entry.rate_decision ≡ decision_ip_limited
    pub class : entry.error_class ≡ codes "rate_limited"
    pub not_called : entry.upstream_called ≡ false

  -- The one error of the limiter.
  admit-slow_down :
      refused ≡ true
      → (admit p.fresh p.allow s.buckets (ip_of p req) (p.pick s.service.world) (now p s)).0
        ≡ some slow_down
  unfolding admit
  admit-slow_down h = ground (arith, h)

  abbrev audited_server : Server W L
  audited_server = with_event (some new_event) s

  abbrev turned_away : Server W L
  turned_away =
      with_event (some (record new_event { rate_decision = decision_ip_limited })) (record s {
        buckets =
            (admit p.fresh p.allow s.buckets (ip_of p req) (p.pick s.service.world) (now p s)).1;
      })

module _ {W L : Type 0} (p : Platform W L) (next : Handler (Server W L)) (req : HttpRequest)
    (s : Server W L) where
  limit_rate-refused :
      refused p req s ≡ true
      → limit_rate p next req (audited_server p req s)
        ≡ fail (structured slow_down) req (turned_away p req s)
  unfolding limit_rate
  limit_rate-refused h = rw (admit-slow_down p req s h, limit_rate) refl

  -- A request that the rate limiter refuses is answered by 429, leaves the service as it was, and
  -- is audited by one record that tells the status, the limiter's decision and the error class, and
  -- no upstream call, whatever the handler inside.
  pub audit-Limited : refused p req s ≡ true → Limited p req s (audit p (limit_rate p next) req s)
  unfolding audit fail write_error as_error status_for code_text audit_record
  audit-Limited h =
      let ops = (fail (structured slow_down) req (turned_away p req s)).ops in
      let (same, st) =
        respond-record_ops ops (fail-Final (structured slow_down) req (turned_away p req s)) in
      let answered = (respond-fail (structured slow_down) req (turned_away p req s)).0 in
      let r = (record_ops new_recorder ops).0 in
      let after = (fail (structured slow_down) req (turned_away p req s)).after in
      rw (limit_rate-refused h, audit)
        (record {
          status = ap (λ x. x.status) same ∙ answered;
          service = refl;
          entry = audit_record p s req (recorded_status r) after;
          log = refl;
          stored = refl;
          recorded = some-injective _ _ (sym st ∙ answered);
          decision = refl;
          class = refl;
          not_called = refl;
        })

any-none :
    (key : Text) (keys : List Text) → All (λ k. k ≢ key) keys → any (text_eq key) keys ≡ false
any-none key [] a = refl
any-none key (k ∷ keys) a = elim (Bool-cases (text_eq key k)) [
  | inl e ↦ absurd (a.0 (sym ((text_eq_iff key k).0 e)))
  | inr e ↦ rw (e, any) (any-none key keys a.1)
]

abbrev pub given_key : HttpRequest → Text
given_key req =
    extract_api_key (req.header (codes "X-API-Key")) (req.header (codes "Authorization"))

-- A request whose key is none of the configured ones is answered by 401 and changes nothing but the
-- event of its context.
pub require_key-refused :
    {W L : Type 0} (keys : List Text) (next : Handler (Server W L)) (req : HttpRequest)
    (s : Server W L)
    → is_nil keys ≡ false
    → All (λ k. k ≢ given_key req) keys
    → let t = require_key keys next req s in
      ((respond t.ops).status ≡ some 401) × (with_event s.service.event t.after ≡ s)
unfolding require_key valid_key fail write_error as_error status_for
require_key-refused keys next req s n a =
    let none_of = any-none (given_key req) keys a in
    let invalid : (is_nil keys || valid_key keys (given_key req)) ≡ false =
      ground (arith, n, none_of) in
    let e = structured (unauthorized (codes "a valid API key is required")) in
    rw (invalid, require_key) ((respond-fail e req s).0, refl)
