-- ===== src/Api/Tests.antt =====
-- The request path at concrete inputs.
use linkedin_api.Urlx.{parse}
use linkedin_api.Urlx.Tests.{urls}
use linkedin_api.Service.Profile.Tests.{outside, start}
use linkedin_api.Service.State.{leads}
use linkedin_api.Audit.Sections.{sections_list}
use linkedin_api.Api.Credential.{caller_credential, Headers}
use linkedin_api.Api.Handler.{Request, handle, Refused, handle-Refused}
use linkedin_api.Api.ClientIp.{client_ip, client_ip-forged}
use linkedin_api.Base.{
  split, none, ◌++◌, ℕ, zero, suc, ◌≡◌, refl, Bool, true, false, [], ◌∷◌, arith, Text, codes,
}
use linkedin_api.Api.RateLimit
use linkedin_api.Api.RateLimit.{Buckets, Bucket, admit, admit_apart}

-- A limiter that holds a number of tokens and never refills.
spend : ℕ → ℕ → Bool × ℕ
spend zero now = (false, zero)
spend (suc n) now = (true, n)

abbrev ip_a : Text
ip_a = codes "10.0.0.1"

abbrev ip_b : Text
ip_b = codes "10.0.0.2"

run-Inv_example : RateLimit.Inv (RateLimit.run 2 spend [] ((ip_a, 0, 5) ∷ (ip_b, 0, 6) ∷ []))
run-Inv_example =
    RateLimit.run-Inv 2 spend [] ((ip_a, 0, 5) ∷ (ip_b, 0, 6) ∷ [])
      (record { bounded = omega arith; distinct = tt })

client_ip-forged_example :
    client_ip (λ s. none) (codes "1.2.3.4" ++ (b',' ∷ codes " 10.0.0.9")) (codes "10.0.0.1:80") 1
    ≡ client_ip (λ s. none) (codes " 10.0.0.9") (codes "10.0.0.1:80") 1
unfolding split
client_ip-forged_example =
    client_ip-forged (λ s. none) (codes "1.2.3.4") (codes " 10.0.0.9") (codes "10.0.0.1:80") 1 refl
      refl

client_ip_run :
    client_ip (λ s. none) (codes "1.2.3.4, 10.0.0.9") (codes "10.0.0.1:80") 1 ≡ codes "10.0.0.9"
unfolding client_ip
client_ip_run = refl

abbrev cookies : Headers
cookies = record { li_at = codes "a"; jsession_id = codes "b"; user_agent = [] }

-- A caller session while those are not enabled.
abbrev request : Request
request = record {
  url = codes "https://www.linkedin.com/in/ada";
  headers = cookies;
  request_id = codes "r1";
}

handle-Refused_example :
    Refused urls
      (λ s. s)
      (λ s. s)
      outside
      false
      start
      (handle urls (λ s. s) (λ s. s) outside false (leads false) request start)
unfolding parse caller_credential
handle-Refused_example =
    handle-Refused urls (λ s. s) (λ s. s) outside false (leads false) request start refl

sections_list_run :
    sections_list ((codes "skills", codes "ok") ∷ (codes "education", codes "empty") ∷ [])
    ≡ codes "education:empty,skills:ok"
unfolding sections_list
sections_list_run = refl
