-- ===== src/Urlx/Tests.antt =====
-- URLs, with a small parser for a URL of the form https://host/path.
use linkedin_api.Base.{
  ◌≡◌, refl, inr, true, false, not, none, some, [], ◌∷◌, ◌==◌, is_nil, codes, text_eq,
}
use linkedin_api.Base.{strip_prefix, cut}
use linkedin_api.Urlx.{Urls, ProfileRef, is_linkedin_host, parse}
use linkedin_api.Urlx.Accepted.{Accepted, parse-Accepted}

abbrev pub urls : Urls
urls = record {
  parse_url = λ s. elim (strip_prefix (codes "https://") s) [
    | none ↦ none
    | some rest ↦ elim (cut (λ c. c == b'/') rest) [
      | none ↦ some (record { scheme = codes "https"; host = rest; escaped_path = [] })
      | some (host, path) ↦
          some (record { scheme = codes "https"; host = host; escaped_path = b'/' ∷ path })
    ]
  ];
  path_unescape = λ s. some s;
  slug_pattern = λ s. not (is_nil s);
}

look_alike : is_linkedin_host (codes "linkedin.com.evil.com") ≡ false
unfolding is_linkedin_host text_eq
look_alike = refl

mobile : is_linkedin_host (codes "UK.m.LinkedIn.com:443") ≡ true
unfolding is_linkedin_host text_eq
mobile = refl

abbrev ada : ProfileRef
ada = record { public_id = codes "ada"; canonical_url = codes "https://www.linkedin.com/in/ada" }

parse_run : parse urls (codes " www.linkedin.com/in/ada/ ") ≡ inr ada
unfolding parse text_eq
parse_run = refl

parse-Accepted_example : Accepted urls (codes " www.linkedin.com/in/ada/ ") ada
parse-Accepted_example = parse-Accepted urls (codes " www.linkedin.com/in/ada/ ") ada parse_run
