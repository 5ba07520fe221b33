-- ===== src/Api/Credential.antt =====
-- internal/api/credential.go and apikey.go: the session that a request's headers choose, and the keys of
-- the administrative route. A header that is absent is the empty text.
use linkedin_api.Base.{
  ℕ, ◌≡◌, refl, ap, ◌⊎◌, inl, inr, Bool, true, false, not, ◌&&◌, ◌||◌, Option, none, some, List, [],
  arith, ltb, ◌==◌, if◌then◌else◌, Bool-cases, length, is_nil, any, all, Text, codes, text_eq,
}
use linkedin_api.Base.{strip_prefix}
use mathlib.Core.Option.{some-injective}
use linkedin_api.Domain.Errors.{Error, invalid}
use linkedin_api.Linkedin.Credential.{
  Credential, server_credential, new_caller_credential, with_user_agent, is_caller,
}

abbrev pub max_credential_len : ℕ
max_credential_len = 4096

abbrev pub is_control : ℕ → Bool
is_control c = ltb c 32 || c == 127

unfoldable pub valid_credential : Text → Bool
valid_credential v =
    not (is_nil v) && not (ltb max_credential_len (length v)) && all (λ c. not (is_control c)) v

pub record Headers : Type 0 where
  pub li_at : Text
  pub jsession_id : Text
  pub user_agent : Text

abbrev pub err_disabled : Error
err_disabled = invalid (codes "caller-supplied LinkedIn sessions are not enabled")

abbrev pub err_both : Error
err_both =
    invalid
      (codes "both X-LinkedIn-Li-At and X-LinkedIn-JSESSIONID are required to use a caller session")

abbrev pub err_malformed : Error
err_malformed = invalid (codes "the supplied LinkedIn session headers are malformed")

abbrev pub err_agent : Error
err_agent = invalid (codes "the supplied X-LinkedIn-User-Agent header is malformed")

module _ (quote mac : Text → Text) where
  unfoldable pub caller_credential : Headers → Bool → Error ⊎ Credential
  unfolding valid_credential new_caller_credential
  caller_credential h allow =
      if is_nil h.li_at && is_nil h.jsession_id
      then inr server_credential
      else if not allow
      then inl err_disabled
      else if is_nil h.li_at || is_nil h.jsession_id
      then inl err_both
      else if not (valid_credential h.li_at) || not (valid_credential h.jsession_id)
      then inl err_malformed
      else if not (is_nil h.user_agent) && not (valid_credential h.user_agent)
      then inl err_agent
      else inr
          (with_user_agent h.user_agent (new_caller_credential quote mac h.li_at h.jsession_id))

-- (*apiKeyAuth).valid; every key is compared.
unfoldable pub valid_key : List Text → Text → Bool
valid_key keys provided = not (is_nil provided) && any (text_eq provided) keys

-- extractAPIKey, from X-API-Key and Authorization
unfoldable pub extract_api_key : Text → Text → Text
unfolding strip_prefix
extract_api_key key authorization =
    if not (is_nil key)
    then key
    else elim (strip_prefix (codes "Bearer ") authorization) [ none ↦ [] | some rest ↦ rest ]

-- What holds of headers whose session is taken.
pub record Sound (h : Headers) (allow : Bool) : Type 0 where
  pub enabled : allow ≡ true
  pub li_at : valid_credential h.li_at ≡ true
  pub jsession_id : valid_credential h.jsession_id ≡ true
  pub user_agent : (is_nil h.user_agent || valid_credential h.user_agent) ≡ true

to_option : Error ⊎ Credential → Option Credential
to_option (inl err) = none
to_option (inr c) = some c

-- Four guards that a result has passed.
passes :
    {A : Type 0} (b c d e : Bool) (p q r t : Error) (res : Error ⊎ A) (x : A)
    → (if b then inl p else if c then inl q else if d then inl r else if e then inl t else res)
      ≡ inr x
    → (b ≡ false) × (c ≡ false) × (d ≡ false) × (e ≡ false)
passes true c d e p q r t res x h = cc
passes false true d e p q r t res x h = cc
passes false false true e p q r t res x h = cc
passes false false false true p q r t res x h = cc
passes false false false false p q r t res x h = (refl, refl, refl, refl)

-- A request gets a caller session only if those are enabled, both cookies are given, and no header
-- that it uses is longer than 4096 bytes or has a control byte.
pub caller_credential-Sound :
    (quote mac : Text → Text) (h : Headers) (allow : Bool) (cred : Credential)
    → caller_credential quote mac h allow ≡ inr cred
    → is_caller cred ≡ true
    → Sound h allow
unfolding caller_credential to_option
caller_credential-Sound quote mac h allow cred e c =
    elim (Bool-cases (is_nil h.li_at && is_nil h.jsession_id)) [
      | inl n ↦
          let server : server_credential ≡ cred =
            some-injective _ _ (ap to_option (rw (caller_credential, n) at e)) in
          let same : is_caller server_credential ≡ is_caller cred = ap is_caller server in
          absurd (ground (arith, same, c))
      | inr n ↦
          let (enabled, both, valid, agent) =
            passes (not allow) (is_nil h.li_at || is_nil h.jsession_id)
              (not (valid_credential h.li_at) || not (valid_credential h.jsession_id))
              (not (is_nil h.user_agent) && not (valid_credential h.user_agent)) err_disabled
              err_both err_malformed err_agent
              (inr (
                with_user_agent h.user_agent
                  (new_caller_credential quote mac h.li_at h.jsession_id)))
              cred (rw (caller_credential, n) at e) in
          record {
            enabled = ground (arith, enabled);
            li_at = ground (arith, valid);
            jsession_id = ground (arith, valid);
            user_agent = ground (arith, agent);
          }
    ]
