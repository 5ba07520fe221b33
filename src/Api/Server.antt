-- ===== src/Api/Server.antt =====
-- internal/api: what the middleware and the handlers share, and what they read of a request. The clock,
-- net.SplitHostPort and the random source are fields of a `Platform`. `event` in the service is the
-- event of the request's context: the audit middleware sets it for the handler inside and takes it
-- away again.
use linkedin_api.Base.{
  ℕ, ◌+◌, ◌*◌, ◌-◌, ◌/◌, ◌%◌, ◌<◌, ◌≡◌, refl, inl, inr, arith, Bool, true, false, not, ◌&&◌, ◌||◌,
  Option, none, some, List, [], ◌∷◌, ltb, leb, ◌==◌, if◌then◌else◌, Bool-cases, all, All, length,
  is_nil, Text, codes, text_eq,
}
use linkedin_api.Audit.Event.{Event, Record, anonymous_key, new_event, snapshot}
use linkedin_api.Audit.Writer.{Writer, enqueue}
use linkedin_api.Service.State.{ProfileService}
use linkedin_api.Api.RateLimit.{Buckets}
use linkedin_api.Api.ClientIp.{client_ip}
use linkedin_api.Api.Http.{HttpRequest}

-- One request as observe counts and logs it.
pub record Observation : Type 0 where
  pub route : Text
  pub method : Text
  pub status : ℕ
  pub request_id : Text
  pub client_ip : Text
  pub duration : ℕ

-- What the handlers share: the service, the buckets of the rate limiter, the requests observed, the
-- audit log, and the recorder of the audit store, if there is one.
pub record Server (W L : Type 0) : Type 0 where
  pub service : ProfileService W
  pub buckets : Buckets L
  pub observed : List Observation
  pub audited : List Record
  pub recorder : Option Writer

pub record Platform (W L : Type 0) : Type 0 where
  pub clock : W → ℕ
  pub pick : W → ℕ
  pub split_host : Text → Option Text
  pub random : W → Option Text
  pub fresh : L
  pub allow : L → ℕ → Bool × L
  pub proxy_depth : ℕ

abbrev pub hex_digit : ℕ → ℕ
hex_digit n = if ltb n 10 then b'0' + n else b'a' + (n - 10)

-- hex.EncodeToString
unfoldable pub hex : Text → Text
hex [] = []
hex (c ∷ s) = hex_digit (c / 16) ∷ hex_digit (c % 16) ∷ hex s

-- newRequestID, on the 16 bytes that rand.Read gives or none.
unfoldable pub new_request_id : Option Text → Text
unfolding hex
new_request_id none = codes "unknown"
new_request_id (some b) = hex b

-- safeRequestID
abbrev pub is_id_byte : ℕ → Bool
is_id_byte c =
    (leb b'A' c && leb c b'Z')
    || (leb b'a' c && leb c b'z')
    || (leb b'0' c && leb c b'9')
    || c == b'.'
    || c == b'_'
    || c == b'-'

unfoldable pub safe_request_id : Text → Bool
safe_request_id id = not (is_nil id) && leb (length id) 64 && all is_id_byte id

-- What rand.Read fills.
abbrev pub Filled : Option Text → Type 0
Filled none = Unit {0}
Filled (some b) = (length b ≡ 16) × All (λ c. c < 256) b

hex_digit-id_byte : (n : ℕ) → n < 16 → is_id_byte (hex_digit n) ≡ true
hex_digit-id_byte n h = elim (Bool-cases (ltb n 10)) [
  | inl e ↦ rw e (ground (arith, e))
  | inr e ↦ rw e (ground (arith, e))
]

length-hex : (b : Text) → length (hex b) ≡ 2 * length b
unfolding hex
length-hex [] = refl
length-hex (c ∷ b) = omega (arith, length-hex b)

all-hex : (b : Text) → All (λ c. c < 256) b → all is_id_byte (hex b) ≡ true
unfolding hex
all-hex [] h = refl
all-hex (c ∷ b) h =
    rw
      (
        hex_digit-id_byte (c / 16) (omega (arith, h.0)),
        hex_digit-id_byte (c % 16) (omega arith),
        all-hex b h.1,
      )
      refl

-- A new request id is safe.
pub safe-new_request_id : (b : Option Text) → Filled b → safe_request_id (new_request_id b) ≡ true
unfolding safe_request_id new_request_id
safe-new_request_id none h = refl
safe-new_request_id (some b) h = ground (arith, length-hex b, h.0, all-hex b h.1)

unfoldable pub route_label : HttpRequest → Text
unfolding text_eq
route_label req =
    if text_eq req.path (codes "/v1/profile")
      || text_eq req.path (codes "/healthz")
      || text_eq req.path (codes "/readyz")
      || text_eq req.path (codes "/metrics")
      || text_eq req.path (codes "/admin/usage")
    then req.path
    else codes "static"

abbrev pub deliver : Option Writer → Record → Option Writer
deliver none rec = none
deliver (some w) rec = some (enqueue w rec)

module _ {W L : Type 0} where
  abbrev pub with_event : Option Event → Server W L → Server W L
  with_event e s = record s { service = record (s.service) { event = e } }

  module _ (p : Platform W L) where
    abbrev pub now : Server W L → ℕ
    now s = p.clock s.service.world

    abbrev pub ip_of : HttpRequest → Text
    ip_of req =
        client_ip p.split_host (req.header (codes "X-Forwarded-For")) req.remote_addr p.proxy_depth

    -- The record of a request: what the event was annotated with, over the fields of the request.
    unfoldable pub audit_record : Server W L → HttpRequest → ℕ → Server W L → Record
    unfolding client_ip
    audit_record s req status after =
        let e : Event = elim after.service.event [ none ↦ new_event | some e ↦ e ] in
        snapshot e (record {
          time = now s;
          request_id = req.request_id;
          client_ip = ip_of req;
          key_id = anonymous_key;
          profile_id = [];
          credential_mode = [];
          cred_fp = [];
          status = status;
          rate_decision = [];
          cached = false;
          upstream_called = false;
          upstream_outcome = [];
          retries = 0;
          latency = now after - now s;
          error_class = [];
          sections = [];
        })
