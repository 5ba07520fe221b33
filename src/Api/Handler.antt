-- ===== src/Api/Handler.antt =====
-- internal/api/profile_handler.go: the handler, composed of the URL layer, the choice of a session and
-- the profile service.
use linkedin_api.Base.{
  Sum-cases, ◌≡◌, refl, inl, inr, Bool, true, false, not, ◌&&◌, arith, if◌then◌else◌, Bool-cases,
  is_nil, Text, codes,
}
use linkedin_api.Domain.{mode_text}
use linkedin_api.Domain.Errors.{Err, structured, invalid}
use linkedin_api.Domain.Profile.{ProfileResult}
use linkedin_api.Urlx.{Urls, ProfileRef, parse}
use linkedin_api.Audit.Event.{set_profile_id, set_credential, set_sections}
use linkedin_api.Audit.Sections.{sections_list}
use linkedin_api.Linkedin.Credential.{Credential, credential_mode}
use linkedin_api.Service.Profile.{get_profile}
use linkedin_api.Service.State.{Outside, ProfileService, Flight, note}
use linkedin_api.Api.Errors.{Response, write_error}
use linkedin_api.Api.Credential.{Headers, caller_credential}

-- The query parameter, the headers, and the request's id.
pub record Request : Type 0 where
  pub url : Text
  pub headers : Headers
  pub request_id : Text

-- The body of a success has status 200.
pub data Reply : Type 0 where
  failed : Response → Reply
  found : ProfileResult → Reply

abbrev pub err_no_url : Err
err_no_url = structured (invalid (codes "query parameter 'url' is required"))

module _ {W : Type 0} where
  -- writeError with the event of the context.
  unfoldable pub fail_with : Text → Err → ProfileService W → Reply × ProfileService W
  unfolding write_error
  fail_with request_id err s =
      let (response, event) = write_error request_id err s.event in
      (failed response, record s { event = event })

module _ {W : Type 0} (u : Urls) (quote mac : Text → Text) (o : Outside W)
    (allow_caller : Bool) where
  unfoldable pub serve :
      Flight → Request → ProfileRef → Credential → ProfileService W → Reply × ProfileService W
  unfolding get_profile sections_list fail_with
  serve flight req ref cred s =
      let s1 = note (set_profile_id ref.public_id) s in
      let s2 = note (set_credential (mode_text (credential_mode cred)) cred.fingerprint) s1 in
      let (answer, s3) = get_profile o flight s2 ref cred in
      elim answer [
        | inl err ↦ fail_with req.request_id err s3
        | inr result ↦ (found result, note (set_sections (sections_list result.meta.sections)) s3)
      ]

  unfoldable pub handle : Flight → Request → ProfileService W → Reply × ProfileService W
  unfolding parse caller_credential fail_with serve
  handle flight req s =
      if is_nil req.url then fail_with req.request_id err_no_url s else elim (parse u req.url) [
        | inl err ↦ fail_with req.request_id (structured err) s
        | inr ref ↦ elim (caller_credential quote mac req.headers allow_caller) [
          | inl err ↦ fail_with req.request_id (structured err) s
          | inr cred ↦ serve flight req ref cred s
        ]
      ]

  -- Whether a request is one that the handler passes on.
  abbrev pub well_formed : Request → Bool
  well_formed req =
      not (is_nil req.url)
      && elim (parse u req.url) [ inl err ↦ false | inr ref ↦ true ]
      && elim (caller_credential quote mac req.headers allow_caller) [
        | inl err ↦ false
        | inr cred ↦ true
      ]

  -- What a refusal leaves: an error reply, and everything but the audit event as it was.
  pub record Refused (s : ProfileService W) (answer : Reply × ProfileService W) : Type 0 where
    pub response : Response
    pub fails : answer.0 ≡ failed response
    pub untouched : record (answer.1) { event = s.event } ≡ s

  fail_with-Refused :
      (request_id : Text) (err : Err) (s : ProfileService W)
      → Refused s (fail_with request_id err s)
  unfolding fail_with
  fail_with-Refused request_id err s = record {
    response = (write_error request_id err s.event).0;
    fails = refl;
    untouched = refl;
  }

  -- A request without a URL, with a URL that Parse refuses, or with session headers that are
  -- refused is answered by an error and changes nothing but its own audit event: no cache, no
  -- counter, nothing upstream.
  pub handle-Refused :
      (flight : Flight) (req : Request) (s : ProfileService W)
      → well_formed req ≡ false
      → Refused s (handle flight req s)
  unfolding handle
  handle-Refused flight req s h = elim (Bool-cases (is_nil req.url)) [
    | inl e ↦ rw (handle, e) (fail_with-Refused req.request_id err_no_url s)
    | inr e ↦ elim (Sum-cases (parse u req.url)) [
      | inl (err, q) ↦ rw (handle, e, q) (fail_with-Refused req.request_id (structured err) s)
      | inr (ref, q) ↦ elim (Sum-cases (caller_credential quote mac req.headers allow_caller)) [
        | inl (err, c) ↦ rw (handle, e, q, c) (fail_with-Refused req.request_id (structured err) s)
        | inr (cred, c) ↦ absurd (ground (arith, e, q, c, h))
      ]
    ]
  ]
