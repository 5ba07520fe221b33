-- ===== src/Config/Env.antt =====
-- internal/config/config.go: the readers of the environment. An environment is what os.LookupEnv says of
-- each key. Of the standard library, time.ParseDuration and strconv.ParseFloat are the fields of
-- `Parsers`; a float64 stands for whether it is positive.
use linkedin_api.Base.{
  not, map, keep, all, is_space, ◌++◌, Bool-cases, trim-padded, padded-no_comma, ℕ, ◌≡◌, refl, ap,
  ◌∙◌, Bool, true, false, ◌||◌, Option, none, some, List, [], ◌∷◌, arith, if◌then◌else◌, is_nil,
  Text, codes, text_eq, All, any_byte, split, trim_space, split_on-free, join, ◌==◌,
}
use linkedin_api.Base.Int.{ℤ}
use linkedin_api.Base.Decimal.{atoi}

abbrev pub Env : Type 0
Env = Text → Option Text

pub record Parsers : Type 0 where
  pub parse_duration : Text → Option ℕ
  pub parse_float : Text → Option Bool

-- strconv.ParseBool
abbrev pub one_of : List Text → Text → Bool
one_of [] s = false
one_of (t ∷ ts) s = text_eq t s || one_of ts s

unfoldable pub parse_bool : Text → Option Bool
unfolding text_eq
parse_bool s =
    if one_of (codes "1" ∷ codes "t" ∷ codes "T" ∷ codes "TRUE" ∷ codes "true" ∷ codes "True" ∷ [])
      s
    then some true
    else if one_of
        (codes "0" ∷ codes "f" ∷ codes "F" ∷ codes "FALSE" ∷ codes "false" ∷ codes "False" ∷ []) s
    then some false
    else none

-- getEnv
unfoldable pub get_env : Env → Text → Text → Text
get_env env key def = elim (env key) [ none ↦ def | some v ↦ if is_nil v then def else v ]

-- getEnvInt, getEnvFloat, getEnvBool and getEnvDuration, by the parser of the trimmed value.
unfoldable pub get_env_parsed {ℓ} : {A : Type ℓ} → (Text → Option A) → Env → Text → A → A
unfolding trim_space
get_env_parsed parse env key def = elim (env key) [
  | none ↦ def
  | some v ↦ elim (parse (trim_space v)) [ none ↦ def | some x ↦ x ]
]

abbrev pub get_env_int : Env → Text → ℤ → ℤ
get_env_int = get_env_parsed atoi

abbrev pub get_env_bool : Env → Text → Bool → Bool
get_env_bool = get_env_parsed parse_bool

-- The entries of a split that are not blank, trimmed.
unfoldable pub entries : List Text → List Text
unfolding trim_space
entries [] = []
entries (part ∷ parts) =
    let rest = entries parts in
    let trimmed = trim_space part in if is_nil trimmed then rest else trimmed ∷ rest

-- getEnvCSV; nil is the empty list.
unfoldable pub get_env_csv : Env → Text → List Text
unfolding split entries
get_env_csv env key = elim (env key) [ none ↦ [] | some v ↦ entries (split b',' v) ]

unfoldable pub get_env_csv_or : Env → Text → List Text → List Text
unfolding get_env_csv
get_env_csv_or env key def = let v = get_env_csv env key in if is_nil v then def else v

-- What may stand between two commas of a list: a text, which may be blank, between spaces.
pub record Item : Type 0 where
  pub left : Text
  pub entry : Text
  pub right : Text

abbrev pub written : Item → Text
written i = i.left ++ (i.entry ++ i.right)

pub record IsItem (i : Item) : Type 0 where
  pub spaces_left : all is_space i.left ≡ true
  pub spaces_right : all is_space i.right ≡ true
  pub trimmed : trim_space i.entry ≡ i.entry
  pub no_comma : any_byte (λ c. c == b',') i.entry ≡ false

split-join :
    (i : Item) (more : List Item)
    → All IsItem (i ∷ more)
    → split b',' (join (map written (i ∷ more))) ≡ map written (i ∷ more)
unfolding split
split-join i [] h =
    let free =
      padded-no_comma i.left i.entry i.right h.0.spaces_left h.0.spaces_right h.0.no_comma in
    ground (arith, (split_on-free b',' (written i) [] free).1)
split-join i (j ∷ more) h =
    let free =
      padded-no_comma i.left i.entry i.right h.0.spaces_left h.0.spaces_right h.0.no_comma in
    let rest = join (map written (j ∷ more)) in
    ground (arith, (split_on-free b',' (written i) rest free).0, split-join j more h.1)

written-trimmed : (i : Item) → IsItem i → trim_space (written i) ≡ i.entry
unfolding trim_space
written-trimmed i h =
    trim-padded is_space i.left i.entry i.right h.spaces_left h.spaces_right h.trimmed

abbrev pub is_filled : Text → Bool
is_filled e = not (is_nil e)

entries_lem :
    (items : List Item)
    → All IsItem items
    → entries (map written items) ≡ keep is_filled (map (λ i. i.entry) items)
unfolding entries
entries_lem [] h = refl
entries_lem (i ∷ items) h =
    ground (arith, written-trimmed i h.0, entries_lem items h.1, Bool-cases (is_nil i.entry))

-- A variable that holds items joined by commas, each a trimmed text without a comma, which may be
-- empty, with any spaces around it, is read as those of the texts that are not empty, if there is
-- at least one item.
pub get_env_csv-join :
    (env : Env) (key : Text) (i : Item) (more : List Item)
    → env key ≡ some (join (map written (i ∷ more)))
    → All IsItem (i ∷ more)
    → get_env_csv env key ≡ keep is_filled (map (λ i. i.entry) (i ∷ more))
unfolding get_env_csv
get_env_csv-join env key i more s h =
    rw (s, get_env_csv) (ap entries (split-join i more h) ∙ entries_lem (i ∷ more) h)
