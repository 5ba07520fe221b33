-- ===== src/Linkedin/Parse/Image.antt =====
-- internal/linkedin/parse/raw.go: the sized variants of an image, smallest first. `sort.Slice` leaves
-- the order of equal widths open; the insertion sort here keeps it.
use linkedin_api.Base.{
  ℕ, ◌≤◌, ◌≡◌, refl, subst, inl, inr, ◌||◌, Option, none, some, List, [], ◌∷◌, ◌++◌, arith, leb,
  if◌then◌else◌, Bool-cases, is_nil, All, Text,
}
use mathlib.Core.List.{Perm, Mem, mem-cons_self, mem-cons_of_mem}
use mathlib.Core.List.Perm
use mathlib.Core.Option.{some-injective}
use linkedin_api.Base.{zero, suc, Bool, true, false, not, ◌&&◌, map, keep}
use linkedin_api.Base.Int.{ℤ, pos, negsuc, is_nonpositive, to_ℕ}
use linkedin_api.Domain.Profile.{Image, ImageVariant}

pub record Artifact : Type 0 where
  pub width : ℤ
  pub height : ℤ
  pub segment : Text

pub record VectorImage : Type 0 where
  pub root_url : Text
  pub artifacts : List Artifact

-- The loop over the artifacts.
unfoldable pub variants : Text → List Artifact → List ImageVariant
variants root [] = []
variants root (a ∷ more) =
    let rest = variants root more in
    if is_nonpositive a.width || is_nil a.segment
    then rest
    else record { width = to_ℕ a.width; height = a.height; url = root ++ a.segment } ∷ rest

unfoldable pub insert : ImageVariant → List ImageVariant → List ImageVariant
insert v [] = v ∷ []
insert v (w ∷ ws) = let rest = insert v ws in if leb v.width w.width then v ∷ w ∷ ws else w ∷ rest

unfoldable pub sort : List ImageVariant → List ImageVariant
unfolding insert
sort [] = []
sort (v ∷ vs) = insert v (sort vs)

-- The last of a list that is not empty.
unfoldable pub last_or : ImageVariant → List ImageVariant → ImageVariant
last_or v [] = v
last_or v (w ∷ ws) = last_or w ws

unfoldable pub pick_largest : List ImageVariant → Option Image
unfolding last_or
pick_largest [] = none
pick_largest (v ∷ vs) = some (record { url = (last_or v vs).url; variants = v ∷ vs })

-- A nil receiver is `none`.
unfoldable pub image : Option VectorImage → Option Image
unfolding pick_largest sort variants
image none = none
image (some v) =
    if is_nil v.root_url || is_nil v.artifacts
    then none
    else pick_largest (sort (variants v.root_url v.artifacts))

-- strPtr
unfoldable pub str_ptr : Text → Option Text
str_ptr s = if is_nil s then none else some s

insert-perm : (v : ImageVariant) (ws : List ImageVariant) → Perm (insert v ws) (v ∷ ws)
unfolding insert
insert-perm v [] = Perm.refl (v ∷ [])
insert-perm v (w ∷ ws) = elim (Bool-cases (leb v.width w.width)) [
  | inl e ↦ rw e (Perm.refl (v ∷ w ∷ ws))
  | inr e ↦ rw e (Perm.trans (Perm.cons w (insert-perm v ws)) (Perm.swap v w ws))
]

sort-perm : (vs : List ImageVariant) → Perm (sort vs) vs
unfolding sort
sort-perm [] = Perm.refl []
sort-perm (v ∷ vs) = Perm.trans (insert-perm v (sort vs)) (Perm.cons v (sort-perm vs))

-- Widths do not fall along the list, from a lower bound on.
abbrev pub Ascending : ℕ → List ImageVariant → Type 0
Ascending n [] = Unit {0}
Ascending n (v ∷ vs) = (n ≤ v.width) × Ascending v.width vs

insert-Ascending :
    (n : ℕ) (v : ImageVariant) (ws : List ImageVariant)
    → n ≤ v.width
    → Ascending n ws
    → Ascending n (insert v ws)
unfolding insert
insert-Ascending n v [] h k = (h, tt)
insert-Ascending n v (w ∷ ws) h k = ground (arith, insert-Ascending w.width v ws)

sort-Ascending : (vs : List ImageVariant) → Ascending 0 (sort vs)
unfolding sort
sort-Ascending [] = tt
sort-Ascending (v ∷ vs) = insert-Ascending 0 v (sort vs) (omega arith) (sort-Ascending vs)

-- No variant is wider than the last.
last_widest :
    (n : ℕ) (v : ImageVariant) (vs : List ImageVariant)
    → Ascending n (v ∷ vs)
    → (v.width ≤ (last_or v vs).width) × All (λ w. w.width ≤ (last_or v vs).width) vs
unfolding last_or
last_widest n v [] h = (omega arith, tt)
last_widest n v (w ∷ ws) h =
    let (a, b) = last_widest v.width w ws h.1 in (omega (arith, a, h.1.0), (a, b))

last_or-mem : (v : ImageVariant) (vs : List ImageVariant) → Mem (last_or v vs) (v ∷ vs)
unfolding last_or
last_or-mem v [] = mem-cons_self
last_or-mem v (w ∷ ws) = mem-cons_of_mem v (last_or-mem w ws)

abbrev pub is_positive : ℤ → Bool
is_positive (pos zero) = false
is_positive (pos (suc n)) = true
is_positive (negsuc n) = false

-- An artifact that can be shown, and what is shown of it.
abbrev pub usable : Artifact → Bool
usable a = is_positive a.width && not (is_nil a.segment)

abbrev pub shown : Text → Artifact → ImageVariant
shown root a = record { width = to_ℕ a.width; height = a.height; url = root ++ a.segment }

is_positive_lem : (n : ℤ) → is_nonpositive n ≡ not (is_positive n)
is_positive_lem (pos zero) = refl
is_positive_lem (pos (suc n)) = refl
is_positive_lem (negsuc n) = refl

variants_lem :
    (root : Text) (arts : List Artifact) → variants root arts ≡ map (shown root) (keep usable arts)
unfolding variants
variants_lem root [] = refl
variants_lem root (a ∷ more) = ground (arith, is_positive_lem a.width, variants_lem root more)

-- What is claimed of a resolved image.
pub record Resolved (v : VectorImage) (im : Image) : Type 0 where
  pub all_variants : Perm im.variants (map (shown v.root_url) (keep usable v.artifacts))
  pub ascending : Ascending 0 im.variants
  pub largest :
      (w : ImageVariant) × (w.url ≡ im.url)
      × Mem w im.variants
      × All (λ u. u.width ≤ w.width) im.variants

pick_largest-Resolved :
    (v : VectorImage) (vs : List ImageVariant) (im : Image)
    → Perm vs (variants v.root_url v.artifacts)
    → Ascending 0 vs
    → pick_largest vs ≡ some im
    → Resolved v im
unfolding pick_largest
pick_largest-Resolved v [] im p a e = cc
pick_largest-Resolved v (w ∷ ws) im p a e =
    subst (Resolved v)
      (some-injective (record { url = (last_or w ws).url; variants = w ∷ ws }) im e)
      (record {
        all_variants = subst (Perm (w ∷ ws)) (variants_lem v.root_url v.artifacts) p;
        ascending = a;
        largest = (last_or w ws, refl, last_or-mem w ws, last_widest 0 w ws a);
      })

-- A resolved image has as variants exactly its artifacts with a positive width and a segment, each
-- with its size and the root URL followed by the segment, in ascending order of width, and its URL
-- is that of a variant no narrower than any.
pub image-Resolved : (v : VectorImage) (im : Image) → image (some v) ≡ some im → Resolved v im
unfolding image
image-Resolved v im e =
    let vs = variants v.root_url v.artifacts in
    elim (Bool-cases (is_nil v.root_url || is_nil v.artifacts)) [
      | inl b ↦ let e' : none ≡ some im = rw (b, image) at e in cc
      | inr b ↦
          pick_largest-Resolved v (sort vs) im (sort-perm vs) (sort-Ascending vs)
            (rw (b, image) at e)
    ]
