-- ===== src/Urlx.antt =====
-- internal/urlx/profile_url.go. Of the standard library, url.Parse, url.PathUnescape and the slug's
-- pattern over Unicode classes are the fields of `Urls`; the host's pattern is written out.
pub mod Host
pub mod Accepted
pub mod Tests
use linkedin_api.Base.{
  ℕ, zero, suc, ◌+◌, ◌-◌, ◌*◌, ◌/◌, ◌%◌, ◌^◌, ◌≤◌, ◌<◌, ◌≡◌, refl, sym, ap, ◌∙◌, subst, fun_ext,
  ◌≢◌, ◌↔◌, ◌⊎◌, inl, inr, Bool, true, false, not, ◌&&◌, ◌||◌, Option, none, some, List, [], ◌∷◌,
  ◌++◌, map, arith, ltb, leb, ◌==◌, ==_iff, if◌then◌else◌, Bool-cases, Option-cases, is_some,
  is_none, length, length-append, is_nil, get_elem?, remove_at, length-remove_at, keep,
  length-keep-le, any, all, All, All-append, All-keep, All-remove_at, Text, codes, text_eq,
  text_eq_iff, text_eq_refl, String,
}
use linkedin_api.Base.{
  trim, trim_left, trim_right, trim_space, split, split_on, split_on_free, strip_prefix, lower, cut,
  any_byte,
}
use linkedin_api.Domain.Errors.{Error, invalid}

abbrev pub max_input_len : ℕ
max_input_len = 512

abbrev pub max_slug_len : ℕ
max_slug_len = 150

pub record ProfileRef : Type 0 where
  pub public_id : Text
  pub canonical_url : Text

-- *url.URL
pub record Url : Type 0 where
  pub scheme : Text
  pub host : Text
  pub escaped_path : Text

-- `slug_pattern` is slugPattern.MatchString.
pub record Urls : Type 0 where
  pub parse_url : Text → Option Url
  pub path_unescape : Text → Option Text
  pub slug_pattern : Text → Bool

abbrev pub is_letter : ℕ → Bool
is_letter c = leb b'a' c && leb c b'z'

-- linkedin\.com$
unfoldable pub is_domain : Text → Bool
is_domain s = text_eq s (codes "linkedin.com")

-- Whether the text goes on with a prefix and then passes a test.
unfoldable pub after_prefix : Text → (Text → Bool) → Text → Bool
unfolding strip_prefix
after_prefix p test s = elim (strip_prefix p s) [ none ↦ false | some rest ↦ test rest ]

-- (www\.|m\.)?linkedin\.com$
unfoldable pub site_pattern : Text → Bool
unfolding is_domain after_prefix
site_pattern s =
    is_domain s || after_prefix (codes "www.") is_domain s || after_prefix (codes "m.") is_domain s

-- What follows two or three letters and a dot.
unfoldable pub after_locale : Text → Option Text
after_locale (a ∷ b ∷ c ∷ s) =
    if is_letter a && is_letter b
    then (if c == b'.'
        then some s
        else elim s [ [] ↦ none | d ∷ rest ↦ if is_letter c && d == b'.' then some rest else none ])
    else none
after_locale _ = none

-- ^([a-z]{2,3}\.)?(www\.|m\.)?linkedin\.com$
unfoldable pub host_pattern : Text → Bool
unfolding site_pattern after_locale
host_pattern s =
    site_pattern s || elim (after_locale s) [ none ↦ false | some rest ↦ site_pattern rest ]

-- The host without what follows its first colon.
abbrev pub without_port : Text → Text
without_port host = elim (cut (λ c. c == b':') host) [ none ↦ host | some (h, _) ↦ h ]

unfoldable pub is_linkedin_host : Text → Bool
unfolding host_pattern lower cut
is_linkedin_host host = host_pattern (without_port (lower host))

abbrev pub err_form : Error
err_form =
    invalid (codes "profile url must be of the form https://www.linkedin.com/in/{identifier}")

module _ (u : Urls) where
  unfoldable pub check_slug : Text → Error ⊎ Text
  check_slug slug = elim (u.path_unescape slug) [
    | none ↦ inl (invalid (codes "profile identifier is malformed"))
    | some decoded ↦
        if ltb max_slug_len (length decoded) || not (u.slug_pattern slug)
        then inl (invalid (codes "profile identifier is invalid"))
        else inr slug
  ]

  -- The parts of the path: "in" and an identifier.
  unfoldable pub parts_slug : List Text → Error ⊎ Text
  unfolding check_slug text_eq
  parts_slug (first ∷ second ∷ []) =
      if not (text_eq first (codes "in")) || is_nil second then inl err_form else check_slug second
  parts_slug _ = inl err_form

  unfoldable pub extract_slug : Text → Error ⊎ Text
  unfolding trim split parts_slug
  extract_slug p = parts_slug (split b'/' (trim (λ c. c == b'/') p))

  -- strings.Contains(s, "://")
  unfoldable pub has_scheme : Text → Bool
  unfolding strip_prefix
  has_scheme [] = false
  has_scheme (c ∷ s) = is_some (strip_prefix (codes "://") (c ∷ s)) || has_scheme s

  -- The checks on a URL that url.Parse has taken apart.
  unfoldable pub check_url : Url → Error ⊎ ProfileRef
  unfolding is_linkedin_host extract_slug text_eq
  check_url url =
      if not (text_eq url.scheme (codes "http") || text_eq url.scheme (codes "https"))
      then inl (invalid (codes "profile url must use http or https"))
      else if not (is_linkedin_host url.host)
      then inl (invalid (codes "profile url host must be a linkedin.com domain"))
      else elim (extract_slug url.escaped_path) [
        | inl err ↦ inl err
        | inr slug ↦ inr (record {
          public_id = slug;
          canonical_url = codes "https://www.linkedin.com/in/" ++ slug;
        })
      ]

  unfoldable pub parse : Text → Error ⊎ ProfileRef
  unfolding trim_space has_scheme check_url
  parse given =
      let raw = trim_space given in
      if is_nil raw
      then inl (invalid (codes "profile url is required"))
      else if ltb max_input_len (length raw)
      then inl (invalid (codes "profile url is too long"))
      else elim (u.parse_url (if has_scheme raw then raw else codes "https://" ++ raw)) [
        | none ↦ inl (invalid (codes "profile url is malformed"))
        | some url ↦ check_url url
      ]
