-- ===== src/Cache/Tests.antt =====
-- The caches at concrete inputs.
use linkedin_api.Base.{ℕ, ◌≡◌, refl, [], ◌∷◌, arith, Text, codes, text_eq}
use linkedin_api.Base.Duration.{add_duration}
use linkedin_api.Base.Dict.{get, put, delete}
use linkedin_api.Cache.Ttl.{TtlCache, new_ttl, evict_loop, evict, make_room, set}
use linkedin_api.Cache.Ttl.Laws.{IsValid, sets, drops, run, run-new_ttl-IsValid}

abbrev a : Text
a = codes "a"

abbrev b : Text
b = codes "b"

abbrev c : Text
c = codes "c"

-- Two results, the second of which expires first.
abbrev two : TtlCache ℕ
two = record {
  entries =
      (a, record { result = 1; expires_at = 90 })
      ∷ (b, record { result = 2; expires_at = 80 })
      ∷ [];
  ttl = 50;
  max_entries = 2;
}

evicts_b : set two c 3 10 10 ≡ record two {
  entries =
      (a, record { result = 1; expires_at = 90 })
      ∷ (c, record { result = 3; expires_at = 60 })
      ∷ [];
}
unfolding set make_room evict evict_loop get put delete text_eq add_duration
evicts_b = refl

run-new_ttl-IsValid_example : IsValid {R = ℕ} 2 (run (new_ttl 50 2) (sets a 1 5 5 ∷ drops a 7 ∷ []))
run-new_ttl-IsValid_example =
    run-new_ttl-IsValid 50 2 (sets a 1 5 5 ∷ drops a 7 ∷ []) (omega arith) (refl, (tt, tt))
