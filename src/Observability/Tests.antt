-- ===== src/Observability/Tests.antt =====
-- MustRegister panics at a name that is taken: no two collectors have one. And levels are read.
use linkedin_api.Base.{◌≡◌, refl, Bool, true, not, ◌&&◌, any, List, [], ◌∷◌, codes, text_eq}
use linkedin_api.Observability.{Collector, metrics, parse_level, warn}

abbrev distinct : List Collector → Bool
distinct [] = true
distinct (c ∷ cs) = not (any (λ d. text_eq c.name d.name) cs) && distinct cs

metrics_run : distinct metrics ≡ true
unfolding text_eq
metrics_run = refl

parse_level_run : parse_level (codes " Warning") ≡ warn
unfolding parse_level
parse_level_run = refl
