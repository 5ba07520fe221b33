-- ===== src/Api/Router/Tests.antt =====
-- A server with its routes, and requests to it.
use linkedin_api.Base.{
  ℕ, zero, suc, ◌≡◌, refl, ◌⊎◌, inr, Bool, true, false, none, some, List, [], ◌∷◌, arith, Text,
  codes, text_eq,
}
use linkedin_api.Urlx.Tests.{urls}
use linkedin_api.Service.State.{leads}
use linkedin_api.Service.Profile.Tests.{World, outside, start}
use linkedin_api.Api.Credential.{extract_api_key}
use linkedin_api.Api.Http.{
  HttpRequest, Handler, Op, bytes, set_header, write_header, write, respond,
}
use linkedin_api.Api.Recorder.{new_recorder, record_ops, recorded_status, respond-record_ops}
use linkedin_api.Api.RateLimit.{admit, limiter_for}
use linkedin_api.Base.Dict
use linkedin_api.Api.ClientIp.{client_ip}
use linkedin_api.Api.Server.{Server, Platform, with_event, now}
use linkedin_api.Api.Middleware.{audit}
use linkedin_api.Api.Middleware.Recorded.{Told, audit-Told}
use linkedin_api.Api.Middleware.Refused.{Limited}
use linkedin_api.Api.Middleware.Served.{Served}
use linkedin_api.Api.Image.{Images, handle_image}
use linkedin_api.Api.Image.Answer.{Rejected, Fetched, handle_image-Fetched}
use linkedin_api.Api.Admin.{store_querier}
use linkedin_api.Api.Admin.Answer.{any_failed, Failed, Ok, answer, handle_usage-Answered}
use linkedin_api.Audit.Query.{Failures}
use linkedin_api.Domain.Errors.{plain}
use linkedin_api.Api.Router.{Deps, dispatch, serve}
use linkedin_api.Api.Router.Answers.{serve-Served}
use linkedin_api.Api.Router.Audited.{OneRecord, dispatch-OneRecord}
use linkedin_api.Api.Router.Limited.{dispatch-Limited}
use linkedin_api.Api.Router.Guarded.{dispatch-Unauthorized}

-- Two headers after one status; only the first counts.
abbrev calls : List Op
calls =
    set_header (codes "A") (codes "b")
    ∷ write_header 404
    ∷ write_header 200
    ∷ write (bytes (codes "x"))
    ∷ []

respond-record_ops_example :
    let (r, inner) = record_ops new_recorder calls in
    (respond inner ≡ respond calls) × ((respond calls).status ≡ some (recorded_status r))
respond-record_ops_example = respond-record_ops calls (omega arith)

spend : ℕ → ℕ → Bool × ℕ
spend zero now = (false, zero)
spend (suc n) now = (true, n)

abbrev platform : ℕ → Platform World ℕ
platform tokens = record {
  clock = λ w. w.time;
  pick = λ w. 0;
  split_host = λ s. none;
  random = λ w. none;
  fresh = tokens;
  allow = spend;
  proxy_depth = 0;
}

abbrev server : Server World ℕ
server = record { service = start; buckets = []; observed = []; audited = []; recorder = none }

abbrev get : Text → HttpRequest
get path = record {
  method = codes "GET";
  path = path;
  query = λ k. [];
  header = λ k. [];
  remote_addr = codes "10.0.0.1";
  request_id = codes "r1";
}

abbrev panics : Handler (Server World ℕ)
panics req s = record { ops = []; returned = false; after = s }

audit-Told_example :
    (respond (audit (platform 1) panics (get []) server).ops ≡ respond [])
    × Told (platform 1) panics (get []) server (audit (platform 1) panics (get []) server)
audit-Told_example = audit-Told (platform 1) panics (get []) server tt

abbrev images : Images World
images = record {
  parse_url = λ s. some (record {
    scheme = codes "https";
    host = codes "media.licdn.com";
    has_user = false;
    text = codes "https://media.licdn.com/a";
  });
  is_request = λ s. true;
  send = λ w s. (
    inr (record { status = 200; content_type = codes "image/png"; body = inr (codes "png") }),
    w,
  );
  media_type = λ s. some s;
}

abbrev no_failures : Failures
no_failures = record {
  scan = none;
  percentile = none;
  outcomes = none;
  top_profiles = none;
  top_clients = none;
  top_upstream_clients = none;
}

abbrev deps : Deps World ℕ
deps = record {
  platform = platform 1;
  urls = urls;
  quote = λ s. s;
  mac = λ s. s;
  outside = outside;
  flight = λ req w. leads false;
  images = images;
  ready = none;
  usage = some (store_querier (λ w. []) (λ w. no_failures) (λ s. none));
  metrics_handler = λ req s. record { ops = write_header 200 ∷ []; returned = true; after = s };
  ui = none;
  clean_path = λ s. s;
  allow_caller = true;
  audit_enabled = true;
  has_recorder = false;
  rate_limit_enabled = true;
  metrics_enabled = true;
  admin_keys = codes "k" ∷ [];
}

handle_image-Fetched_example :
    Rejected server (handle_image images (get []) server)
    ⊎ Fetched images (get []) server (handle_image images (get []) server)
handle_image-Fetched_example = handle_image-Fetched images (get []) server

serve-Served_example :
    Served
      (platform 1)
      (dispatch deps)
      (get (codes "/v1/profile"))
      server
      (serve deps (get (codes "/v1/profile")) server)
serve-Served_example =
    serve-Served deps (λ w. tt) (λ req s. omega arith) (λ files h. cc) (get (codes "/v1/profile"))
      server

dispatch-Limited_example :
    let d = record deps { platform = platform 0 } in
    Limited
      (platform 0)
      (get (codes "/v1/image"))
      server
      (dispatch d (get (codes "/v1/image")) server)
unfolding text_eq admit client_ip spend limiter_for Dict.get
dispatch-Limited_example =
    dispatch-Limited (record deps { platform = platform 0 }) (get (codes "/v1/image")) server refl
      refl refl refl (inr refl) refl

dispatch-OneRecord_example :
    OneRecord (get (codes "/v1/image")) server (dispatch deps (get (codes "/v1/image")) server)
unfolding text_eq
dispatch-OneRecord_example =
    dispatch-OneRecord deps (get (codes "/v1/image")) server refl refl refl (inr refl)

dispatch-Unauthorized_example :
    ((respond (dispatch deps (get (codes "/admin/usage")) server).ops).status ≡ some 401)
    × (with_event none (dispatch deps (get (codes "/admin/usage")) server).after ≡ server)
unfolding text_eq extract_api_key
dispatch-Unauthorized_example =
    dispatch-Unauthorized deps (get (codes "/admin/usage")) server
      (store_querier (λ w. []) (λ w. no_failures) (λ s. none)) refl refl refl refl refl
      ((λ e. cc), tt)

abbrev busy : ℕ → Failures
busy w = record no_failures { top_clients = some (plain (codes "database is locked")) }

handle_usage-Answered_example :
    ((any_failed (busy server.service.world.time) ≡ true)
      × Failed server
          (answer (platform 1) (λ w. []) (λ w. busy w.time) (λ s. none) (get []) server))
    ⊎ ((any_failed (busy server.service.world.time) ≡ false)
        × Ok (platform 1) (λ w. []) (λ w. busy w.time) (λ s. none) (get []) server)
handle_usage-Answered_example =
    handle_usage-Answered (platform 1) (λ w. []) (λ w. busy w.time) (λ s. none) (get []) server
