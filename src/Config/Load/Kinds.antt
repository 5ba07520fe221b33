-- ===== src/Config/Load/Kinds.antt =====
-- internal/config/config.go: the kinds of variables, and what the readers make of a variable of a kind.
use linkedin_api.Base.{
  ◌≡◌, refl, sym, subst, ◌⊎◌, inl, inr, Bool-cases, false, Option, Option-cases, none, some, List,
  [], ◌∷◌, map, keep, is_nil, if◌then◌else◌, arith, Text, split, trim_space,
}
use linkedin_api.Config.Env.{
  Env, get_env, get_env_parsed, get_env_csv, get_env_csv_or, entries, is_filled,
}

-- A variable of a kind that `parse` reads, its default, and the setting that Load makes of them.
pub data Reads {A : Type 0} (parse : Text → Option A) (env : Env) (key default : Text) (x : A)
    : Type 0 where
  given :
      (v : Text) → env key ≡ some v → parse (trim_space v) ≡ some x → Reads parse env key default x
  unset : env key ≡ none → parse default ≡ some x → Reads parse env key default x
  unreadable :
      (v : Text)
      → env key ≡ some v
      → parse (trim_space v) ≡ none
      → parse default ≡ some x
      → Reads parse env key default x

-- A variable that is a text as it stands.
pub data Chosen (env : Env) (key default : Text) (x : Text) : Type 0 where
  chosen : env key ≡ some x → is_nil x ≡ false → Chosen env key default x
  unchosen : (env key ≡ none) ⊎ (env key ≡ some []) → x ≡ default → Chosen env key default x

-- The entries of a list that are not blank, trimmed.
abbrev pub filled : Text → List Text
filled v = keep is_filled (map trim_space (split b',' v))

-- A variable that is a list.
pub data Listed (env : Env) (key default : Text) (x : List Text) : Type 0 where
  listed :
      (v : Text) → env key ≡ some v → x ≡ filled v → is_nil x ≡ false → Listed env key default x
  unlisted : env key ≡ none → x ≡ filled default → Listed env key default x
  blank :
      (v : Text) → env key ≡ some v → filled v ≡ [] → x ≡ filled default → Listed env key default x

pub get_env_parsed-Reads :
    {A : Type 0} (parse : Text → Option A) (env : Env) (key default : Text) (x : A)
    → parse default ≡ some x
    → Reads parse env key default (get_env_parsed parse env key x)
unfolding get_env_parsed
get_env_parsed-Reads parse env key default x h = elim (Option-cases (env key)) [
  | inl e ↦ rw (e, get_env_parsed) (unset e h)
  | inr (v, e) ↦ elim (Option-cases (parse (trim_space v))) [
    | inl q ↦ rw (e, q, get_env_parsed) (unreadable v e q h)
    | inr (y, q) ↦ rw (e, q, get_env_parsed) (given v e q)
  ]
]

pub get_env-Chosen :
    (env : Env) (key default : Text) → Chosen env key default (get_env env key default)
unfolding get_env
get_env-Chosen env key default = elim (Option-cases (env key)) [
  | inl e ↦ rw (e, get_env) (unchosen (inl e) refl)
  | inr ([], e) ↦ rw (e, get_env) (unchosen (inr e) refl)
  | inr (b ∷ v, e) ↦ rw (e, get_env) (chosen e refl)
]

entries-filled : (parts : List Text) → entries parts ≡ keep is_filled (map trim_space parts)
unfolding entries
entries-filled [] = refl
entries-filled (part ∷ parts) =
    ground (arith, entries-filled parts, Bool-cases (is_nil (trim_space part)))

pub get_env_csv_or-Listed :
    (env : Env) (key default : Text)
    → Listed env key default (get_env_csv_or env key (filled default))
unfolding get_env_csv_or get_env_csv
get_env_csv_or-Listed env key default = by_value (env key) refl
  where
    by_list :
        (v : Text) (es : List Text)
        → env key ≡ some v
        → filled v ≡ es
        → Listed env key default (if is_nil es then filled default else es)
    by_list v [] e q = blank v e q refl
    by_list v (b ∷ es) e q = listed v e (sym q) refl

    by_value :
        (o : Option Text)
        → env key ≡ o
        → Listed env key default (get_env_csv_or env key (filled default))
    by_value none e =
        let q : get_env_csv env key ≡ [] = rw (e, get_env_csv) refl in
        rw (q, get_env_csv_or) (unlisted e refl)
    by_value (some v) e =
        let q : get_env_csv env key ≡ filled v =
          rw (e, get_env_csv) (entries-filled (split b',' v)) in
        rw (q, get_env_csv_or) (by_list v (filled v) e refl)

-- getEnvCSV is getEnvCSVOr with the empty list.
get_env_csv_or-nil :
    (env : Env) (key : Text) → get_env_csv_or env key (filled []) ≡ get_env_csv env key
unfolding get_env_csv_or split trim_space
get_env_csv_or-nil env key = go (get_env_csv env key) refl
  where
    go :
        (es : List Text)
        → get_env_csv env key ≡ es
        → get_env_csv_or env key (filled []) ≡ get_env_csv env key
    go [] e = rw (e, get_env_csv_or) refl
    go (t ∷ es) e = rw (e, get_env_csv_or) refl

pub get_env_csv-Listed : (env : Env) (key : Text) → Listed env key [] (get_env_csv env key)
get_env_csv-Listed env key =
    subst (Listed env key []) (get_env_csv_or-nil env key) (get_env_csv_or-Listed env key [])
