-- ===== src/Urlx/Accepted.antt =====
-- internal/urlx/profile_url.go: what an accepted URL is, and what of it is used.
use linkedin_api.Base.{
  ◌≡◌, refl, sym, ap, subst, ◌⊎◌, inl, inr, Bool, true, false, not, ◌||◌, List, [], ◌∷◌, ◌++◌,
  arith, ◌==◌, if◌then◌else◌, Bool-cases, Option-cases, is_some, is_nil, All, Text, codes, text_eq,
  text_eq_iff, some,
}
use linkedin_api.Base.{trim, split, split_on, split_on_free, lower, any_byte, trim_space}
use linkedin_api.Domain.Errors.{Error}
use linkedin_api.Urlx.{
  Url, Urls, ProfileRef, without_port, is_linkedin_host, check_slug, parts_slug, extract_slug,
  has_scheme, check_url, parse,
}
use linkedin_api.Urlx.Host.{Within, host_pattern-Within}

-- The text that url.Parse is given: without the spaces around it, and with a scheme.
abbrev pub completed : Urls → Text → Text
completed u given =
    let raw = trim_space given in if has_scheme u raw then raw else codes "https://" ++ raw

-- What is known of a text that Parse accepts, and of the reference that it makes of it.
pub record Accepted (u : Urls) (given : Text) (ref : ProfileRef) : Type 0 where
  pub url : Url
  pub parsed : u.parse_url (completed u given) ≡ some url
  pub scheme : (url.scheme ≡ codes "http") ⊎ (url.scheme ≡ codes "https")
  pub host : Within (without_port (lower url.host))
  pub canonical : ref.canonical_url ≡ codes "https://www.linkedin.com/in/" ++ ref.public_id
  pub not_empty : is_nil ref.public_id ≡ false
  pub no_slash : any_byte (λ c. c == b'/') ref.public_id ≡ false
  pub pattern : u.slug_pattern ref.public_id ≡ true
  pub decodes : is_some (u.path_unescape ref.public_id) ≡ true

-- The two parts of a path, and an identifier that was checked.
pub record Slug (u : Urls) (slug : Text) : Type 0 where
  pub not_empty : is_nil slug ≡ false
  pub no_slash : any_byte (λ c. c == b'/') slug ≡ false
  pub pattern : u.slug_pattern slug ≡ true
  pub decodes : is_some (u.path_unescape slug) ≡ true

check_slug_lem :
    (u : Urls) (slug result : Text)
    → check_slug u slug ≡ inr result
    → (slug ≡ result) × (u.slug_pattern result ≡ true) × (is_some (u.path_unescape result) ≡ true)
unfolding check_slug
check_slug_lem u slug result h =
    let q : (slug ≡ result)
        × (u.slug_pattern slug ≡ true)
        × (is_some (u.path_unescape slug) ≡ true) =
      ground (arith, h) in
    (
      q.0,
      subst (λ t. u.slug_pattern t ≡ true) q.0 q.1,
      subst (λ t. is_some (u.path_unescape t) ≡ true) q.0 q.2,
    )

parts_slug-Slug :
    (u : Urls) (parts : List Text) (first slug : Text)
    → All (λ w. any_byte (λ c. c == b'/') w ≡ false) parts
    → parts_slug u (first ∷ parts) ≡ inr slug
    → Slug u slug
unfolding parts_slug
parts_slug-Slug u [] first slug free h = cc
parts_slug-Slug u (second ∷ third ∷ parts) first slug free h = cc
parts_slug-Slug u (second ∷ []) first slug free h =
    elim (Bool-cases (not (text_eq first (codes "in")) || is_nil second)) [
      | inl e ↦ absurd (ground (arith, e, h))
      | inr e ↦
          let (same, pattern, decodes) = check_slug_lem u second slug (ground (arith, e, h)) in
          record {
            not_empty = ground (arith, e, ap is_nil same);
            no_slash = ground (arith, free.0, ap (any_byte (λ c. c == b'/')) same);
            pattern = pattern;
            decodes = decodes;
          }
    ]

extract_slug-Slug : (u : Urls) (p slug : Text) → extract_slug u p ≡ inr slug → Slug u slug
unfolding extract_slug split
extract_slug-Slug u p slug h =
    let t = trim (λ c. c == b'/') p in
    let (first, parts) = split_on b'/' t in
    parts_slug-Slug u parts first slug (split_on_free b'/' t).1 h

is_linkedin_host-Within :
    (host : Text) → is_linkedin_host host ≡ true → Within (without_port (lower host))
unfolding is_linkedin_host
is_linkedin_host-Within host h = host_pattern-Within (without_port (lower host)) h

-- Two guards that a result has passed.
passes :
    {A : Type 0} (bad worse : Bool) (a b : Error) (r : Error ⊎ A) (x : A)
    → (if bad then inl a else if worse then inl b else r) ≡ inr x
    → (bad ≡ false) × (worse ≡ false) × (r ≡ inr x)
passes true worse a b r x h = cc
passes false true a b r x h = cc
passes false false a b r x h = (refl, refl, h)

not-false : (b : Bool) → not b ≡ false → b ≡ true
not-false true h = refl
not-false false h = sym h

abbrev ref_of : Text → ProfileRef
ref_of slug = record {
  public_id = slug;
  canonical_url = codes "https://www.linkedin.com/in/" ++ slug;
}

slug_result :
    (r : Error ⊎ Text) (ref : ProfileRef)
    → (elim r as (λ x. Error ⊎ ProfileRef) [ inl err ↦ inl err | inr slug ↦ inr (ref_of slug) ])
      ≡ inr ref
    → (slug : Text) × (r ≡ inr slug) × (ref_of slug ≡ ref)
slug_result (inl err) ref h = cc
slug_result (inr slug) ref h = (slug, refl, cc)

is_web :
    (s : Text)
    → (text_eq s (codes "http") || text_eq s (codes "https")) ≡ true
    → (s ≡ codes "http") ⊎ (s ≡ codes "https")
is_web s h = elim (Bool-cases (text_eq s (codes "http"))) [
  | inl e ↦ inl ((text_eq_iff s (codes "http")).0 e)
  | inr e ↦ inr ((text_eq_iff s (codes "https")).0 (ground (arith, e, h)))
]

check_url-Accepted :
    (u : Urls) (given : Text) (url : Url) (ref : ProfileRef)
    → u.parse_url (completed u given) ≡ some url
    → check_url u url ≡ inr ref
    → Accepted u given ref
unfolding check_url
check_url-Accepted u given url ref e h =
    let (a, b, c) = passes _ _ _ _ _ ref h in
    let (slug, q, same) = slug_result (extract_slug u url.escaped_path) ref c in
    let s = extract_slug-Slug u url.escaped_path slug q in
    subst (Accepted u given) same (record {
      url = url;
      parsed = e;
      scheme = is_web url.scheme (not-false _ a);
      host = is_linkedin_host-Within url.host (not-false (is_linkedin_host url.host) b);
      canonical = refl;
      not_empty = s.not_empty;
      no_slash = s.no_slash;
      pattern = s.pattern;
      decodes = s.decodes;
    })

-- A text that Parse accepts, without the spaces around it and completed by https:// if it names no
-- scheme, parses as a URL of the scheme http or https whose host, in lower case and without a port,
-- is linkedin.com or ends in a dot and linkedin.com; the identifier is not empty, has no slash,
-- unescapes and matches the pattern; and the canonical URL is the fixed prefix followed by the
-- identifier.
pub parse-Accepted :
    (u : Urls) (given : Text) (ref : ProfileRef) → parse u given ≡ inr ref → Accepted u given ref
unfolding parse
parse-Accepted u given ref h =
    let raw = trim_space given in
    let target = completed u given in
    elim (Option-cases (u.parse_url target)) [
      | inl e ↦ absurd (ground (arith, e, h))
      | inr (url, e) ↦ check_url-Accepted u given url ref e (ground (arith, e, h))
    ]
