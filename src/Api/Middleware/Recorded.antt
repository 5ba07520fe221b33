-- ===== src/Api/Middleware/Recorded.antt =====
-- internal/api/audit.go and middleware.go: what the audit middleware and observe record of a request.
use linkedin_api.Base.{
  ◌≡◌, refl, ap, ◌∙◌, ◌⊎◌, inl, inr, true, false, Option, none, some, [], ◌∷◌, ◌++◌, ◌-◌, codes,
  arith, Bool-cases, All, Text, All-append, ◌≤◌,
}
use linkedin_api.Domain.Errors.{
  Code, Error, error_code, cause, code_invalid_request, Err, structured, internal, Cause, as_error,
}
use linkedin_api.Audit.Event.{Event, Record, new_event}
use linkedin_api.Api.Errors.{Response, write_error, status_for}
use linkedin_api.Api.Http.{HttpRequest, Handler, Trace, respond}
use linkedin_api.Api.Recorder.{
  new_recorder, record_ops, recorded_status, Final, respond-record_ops, write_json,
}
use linkedin_api.Api.Server.{Server, Platform, deliver, with_event, audit_record, now, ip_of}
use linkedin_api.Api.Middleware.{audit, recoverer, fail, error_ops}

module _ {W L : Type 0} (p : Platform W L) (next : Handler (Server W L)) (req : HttpRequest)
    (s : Server W L) where
  -- The handler inside, as the audit middleware calls it.
  abbrev pub inside : Trace (Server W L)
  inside = next req (with_event (some new_event) s)

  -- The event as the handler inside leaves it.
  abbrev pub event_of : Event
  event_of = elim inside.after.service.event [ none ↦ new_event | some e ↦ e ]

  -- The one record of a request, which tells the status that its client got.
  pub record Recorded (t : Trace (Server W L)) : Type 0 where
    pub entry : Record
    pub log : t.after.audited ≡ inside.after.audited ++ (entry ∷ [])
    pub stored : t.after.recorder ≡ deliver inside.after.recorder entry
    pub status : (respond t.ops).status ≡ some entry.status
    pub time : entry.time ≡ now p s
    pub latency : entry.latency ≡ now p inside.after - now p s
    pub request_id : entry.request_id ≡ req.request_id
    pub client_ip : entry.client_ip ≡ ip_of p req
    pub key_id : entry.key_id ≡ codes "anonymous"
    pub rate_decision : entry.rate_decision ≡ event_of.rate_decision
    pub error_class : entry.error_class ≡ event_of.error_class
    pub profile_id : entry.profile_id ≡ event_of.profile_id
    pub credential_mode : entry.credential_mode ≡ event_of.credential_mode
    pub cred_fp : entry.cred_fp ≡ event_of.cred_fp
    pub cached : entry.cached ≡ event_of.cached
    pub upstream_called : entry.upstream_called ≡ event_of.upstream_called
    pub upstream_outcome : entry.upstream_outcome ≡ event_of.upstream_outcome
    pub retries : entry.retries ≡ event_of.retries
    pub sections : entry.sections ≡ event_of.sections

  -- What a panic leaves: no record.
  abbrev pub Unrecorded : Trace (Server W L) → Type 0
  Unrecorded t =
      (t.returned ≡ false)
      × (t.after.audited ≡ inside.after.audited)
      × (t.after.recorder ≡ inside.after.recorder)

  -- The record of a request whose handler returned, or none after a panic.
  abbrev pub Told : Trace (Server W L) → Type 0
  Told t = ((inside.returned ≡ true) × Recorded t) ⊎ ((inside.returned ≡ false) × Unrecorded t)

  -- Around a handler that sends only statuses of whole responses, the audit middleware changes
  -- nothing of the response. If the handler returns, one record is logged and goes to the recorder
  -- if there is one, with the status that the client gets, the time and address of the request, how
  -- long the handler took, and every annotation of the event as the handler leaves it; if it
  -- panics, none is.
  pub audit-Told :
      All Final inside.ops
      → let t = audit p next req s in (respond t.ops ≡ respond inside.ops) × Told t
  unfolding audit audit_record
  audit-Told f =
      let (same, status) = respond-record_ops inside.ops f in
      elim (Bool-cases inside.returned) [
        | inr e ↦ (rw (e, audit) same, inr (e, rw (e, audit) (refl, refl, refl)))
        | inl e ↦
            let entry =
              audit_record p s req (recorded_status (record_ops new_recorder inside.ops).0)
                inside.after in
            let r : Recorded (audit p next req s) =
              rw (e, audit)
                (record {
                  entry = entry;
                  log = refl;
                  stored = refl;
                  status = ap (λ x. x.status) same ∙ status;
                  time = refl;
                  latency = refl;
                  request_id = refl;
                  client_ip = refl;
                  key_id = refl;
                  rate_decision = refl;
                  error_class = refl;
                  profile_id = refl;
                  credential_mode = refl;
                  cred_fp = refl;
                  cached = refl;
                  upstream_called = refl;
                  upstream_outcome = refl;
                  retries = refl;
                  sections = refl;
                }) in
            (rw (e, audit) same, inl (e, r))
      ]

status_for-Final : (c : Code) → 200 ≤ status_for c
unfolding status_for
status_for-Final code_invalid_request = omega arith
status_for-Final c = omega arith

pub error_ops-Final : (r : Response) → 200 ≤ r.status → All Final (error_ops r)
unfolding error_ops write_json
error_ops-Final r h = ground arith

pub write_error-Final :
    (id : Text) (err : Err) (e : Option Event) → 200 ≤ (write_error id err e).0.status
unfolding write_error
write_error-Final id err e =
    let de : Error = elim (as_error err) [ none ↦ internal (cause err) | some x ↦ x ] in
    status_for-Final (error_code de)

module _ {W L : Type 0} where
  pub fail-Final : (err : Err) (req : HttpRequest) (s : Server W L) → All Final (fail err req s).ops
  unfolding fail
  fail-Final err req s = error_ops-Final _ (write_error-Final req.request_id err s.service.event)

  -- What writeError writes where nothing has been written yet, and where something has.
  pub recoverer-Final :
      (next : Handler (Server W L)) (req : HttpRequest) (s : Server W L)
      → All Final (next req s).ops
      → All Final (recoverer next req s).ops
  unfolding recoverer
  recoverer-Final next req s f = elim (Bool-cases (next req s).returned) [
    | inl e ↦ rw (e, recoverer) f
    | inr e ↦
        rw (e, recoverer)
          (All-append Final (next req s).ops _ f
            (fail-Final (structured (internal Cause.nil)) req (next req s).after))
  ]

  pub recoverer-returned :
      (next : Handler (Server W L)) (req : HttpRequest) (s : Server W L)
      → (recoverer next req s).returned ≡ true
  unfolding recoverer
  recoverer-returned next req s = ground arith

  pub recoverer-observed :
      (next : Handler (Server W L)) (req : HttpRequest) (s : Server W L)
      → (recoverer next req s).after.observed ≡ (next req s).after.observed
  unfolding recoverer fail
  recoverer-observed next req s = ground arith
