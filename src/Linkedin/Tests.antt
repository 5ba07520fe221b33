-- ===== src/Linkedin/Tests.antt =====
-- The client, its statuses and its sections at concrete inputs.
use linkedin_api.Base.{
  ℕ, ◌+◌, ◌≡◌, refl, inr, true, none, some, [], ◌∷◌, ltb, if◌then◌else◌, Text, codes, text_eq,
}
use linkedin_api.Base.Int.{pos, negsuc}
use linkedin_api.Base.Decimal.{atoi, itoa}
use linkedin_api.Linkedin.Credential.{server_credential, new_session}
use linkedin_api.Base.Attr.{text, flag}
use linkedin_api.Linkedin.Headers.{
  Settings, new_client, set_headers, log_request, fallback_user_agent,
}
use linkedin_api.Linkedin.Status.{parse_retry_after}
use linkedin_api.Linkedin.Client.{answered, Response, Network, Client, get_target}
use linkedin_api.Linkedin.Client.Retries.{Sent, Bounded, get_target-Bounded}

itoa_run : itoa 503 ≡ codes "503"
unfolding itoa
itoa_run = refl

atoi_run : atoi (codes "-12") ≡ some (negsuc 11)
unfolding atoi
atoi_run = refl

retry_after_run : parse_retry_after (λ v. none) (codes "120") ≡ 120
unfolding parse_retry_after
retry_after_run = refl

abbrev reply : ℕ → Text → Response
reply status body = record { status = status; retry_after = []; body = inr body }

-- A world that counts requests: the first two fail with 503, the third succeeds.
abbrev network : Network ℕ
network = record {
  send = λ n target cred.
      (if ltb n 2 then answered (reply 503 []) else answered (reply 200 (codes "ok")), n + 1);
  sleep = λ n d. (true, n);
  until = λ v. none;
}

abbrev client : ℕ → Client ℕ
client retries = record {
  max_retries = retries;
  retry_backoff = 100;
  upstream_retries = 0;
  upstream_timeouts = 0;
  upstream_rate_limited = 0;
  upstream_auth_failures = 0;
  event = none;
  world = 0;
}

get_run :
    get_target network (client 3) [] server_credential
    ≡ some (inr (codes "ok"), record (client 3) { upstream_retries = 2; world = 3 })
unfolding get_target
get_run = refl

sent : Sent network (λ n. n)
sent = record { send_one = λ w t c. refl; sleep_none = λ w d. refl }

get_target-Bounded_example :
    Bounded network (λ n. n) sent 0 (client 3) (get_target network (client 3) [] server_credential)
get_target-Bounded_example =
    get_target-Bounded network (λ n. n) sent (client 3) [] server_credential

-- The debug line names the cookies and shows none of their values.
abbrev settings : Settings
settings =
    new_client
      (record {
        li_at = codes "AQE";
        jsession_id = codes "ajax:1";
        base_url = codes "https://www.linkedin.com/";
        user_agent = [];
        accept_language = [];
        timeout = 0;
        max_retries = pos 0;
        retry_backoff = 0;
        profile_timeout = 0;
        allow_caller_session = true;
        sections = [];
        enrichment_concurrency = pos 1;
      })
      (some (new_session (λ s. s) (codes "AQE") (codes "ajax:1")))

log_request_run :
    log_request
      (codes "profile")
      (set_headers settings (codes "*/*") server_credential)
      server_credential
    ≡ (codes "endpoint", text (codes "profile"))
      ∷ (codes "credential_mode", text (codes "server_session"))
      ∷ (codes "user_agent", text fallback_user_agent)
      ∷ (codes "accept", text (codes "*/*"))
      ∷ (codes "accept_language", text (codes "en-US,en;q=0.9"))
      ∷ (codes "x_li_lang", text (codes "en_US"))
      ∷ (codes "x_restli_protocol_version", text (codes "2.0.0"))
      ∷ (codes "cookies", text (codes "li_at,JSESSIONID"))
      ∷ (codes "has_csrf_token", flag true)
      ∷ []
unfolding log_request set_headers new_client new_session text_eq
log_request_run = refl
