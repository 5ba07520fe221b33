-- ===== src/Linkedin/Status.antt =====
-- internal/linkedin/errors.go: what a failed attempt means and whether it is worth another.
use linkedin_api.Base.{
  ℕ, ◌≡◌, ◌⊎◌, inl, inr, Bool, true, false, not, ◌&&◌, ◌||◌, Option, none, some, ◌++◌, arith, ltb,
  leb, ◌==◌, if◌then◌else◌, length, is_nil, Text, codes,
}
use linkedin_api.Base.Int.{ℤ, pos, negsuc}
use linkedin_api.Base.Decimal.{atoi, itoa}
use linkedin_api.Domain.Errors.{
  code_upstream_auth_failed, error_code, error_retry_after, Code, Error, Err, plain, cause,
  not_found, upstream_auth, upstream_rate_limited, upstream_timeout, upstream_unavailable,
  code_upstream_timeout, code_upstream_unavailable,
}

abbrev pub max_body_bytes : ℕ
max_body_bytes = 10_485_760

abbrev pub status_text : Text → ℕ → Err
status_text words status = plain (words ++ itoa status)

unfoldable pub classify_status : ℕ → ℕ → Error
unfolding itoa
classify_status status retry_after =
    if status == 401 || status == 403
    then upstream_auth (cause (status_text (codes "linkedin returned status ") status))
    else if leb 300 status && ltb status 400
    then upstream_auth (
        cause (plain (codes "linkedin redirected to login (status " ++ (itoa status ++ codes ")"))))
    else if status == 404
    then not_found (codes "the requested LinkedIn profile was not found")
    else if status == 429
    then upstream_rate_limited retry_after
        (cause (status_text (codes "linkedin returned status ") status))
    else upstream_unavailable (cause (status_text (codes "linkedin returned status ") status))

unfoldable pub retryable_status : ℕ → Bool
retryable_status status = leb 500 status && ltb status 600

unfoldable pub retryable_code : Code → Bool
retryable_code c = elim c [
  | code_upstream_timeout ↦ true
  | code_upstream_unavailable ↦ true
  | _ ↦ false
]

-- `timed_out` says that the error is the context's deadline or a net.Error that timed out.
unfoldable pub classify_transport : Bool → Err → Error
classify_transport timed_out err =
    if timed_out then upstream_timeout (cause err) else upstream_unavailable (cause err)

-- `read` is what io.ReadAll made of the body, cut off one byte past the limit.
unfoldable pub read_body : Err ⊎ Text → Err ⊎ Text
read_body (inl err) = inl err
read_body (inr data_) =
    if ltb max_body_bytes (length data_)
    then inl (plain (codes "linkedin response exceeded size limit"))
    else inr data_

-- `until` is http.ParseTime with the whole seconds from now to that time, towards zero.
unfoldable pub parse_retry_after : (Text → Option ℤ) → Text → ℕ
unfolding atoi
parse_retry_after until v = if is_nil v then 0 else elim (atoi v) [
  | some (pos n) ↦ n
  | some (negsuc n) ↦ 0
  | none ↦ elim (until v) [ some (pos n) ↦ n | some (negsuc n) ↦ 0 | none ↦ 0 ]
]

abbrev pub is_auth_failed : Code → Bool
is_auth_failed c = elim c [ code_upstream_auth_failed ↦ true | _ ↦ false ]

abbrev pub is_unavailable : Code → Bool
is_unavailable c = elim c [ code_upstream_unavailable ↦ true | _ ↦ false ]

-- The session is blamed for a status exactly if it is 401, 403 or a redirect; a Retry-After reaches
-- the error exactly for 429; and a status that is retried is reported as unavailable.
pub classify_status_lem :
    (status retry_after : ℕ)
    → let e = classify_status status retry_after in
      (is_auth_failed (error_code e)
        ≡ (status == 401 || (status == 403 || (leb 300 status && ltb status 400))))
      × (error_retry_after e ≡ (if status == 429 then retry_after else 0))
      × ((retryable_status status && not (is_unavailable (error_code e))) ≡ false)
unfolding classify_status retryable_status
classify_status_lem status retry_after = ground arith
