-- ===== src/Base/Dict.antt =====
-- Go's `map[string]V` as an association list. The program reads a map by key, by its size, and by
-- ranges whose order Go leaves open; the order of a list stands for one such order.
use linkedin_api.Base.Lists.{length, get_elem?}
use linkedin_api.Base.Tests.{if◌then◌else◌, is_some, Bool-cases, Option-cases}
use linkedin_api.Base.Texts.{Text, text_eq, text_eq_iff, text_eq_refl}
use Prim.Native.Nat.{ℕ, zero, suc, ◌%◌, ◌≤◌, ◌<◌}
use mathlib.Core.Path.{◌≡◌, refl}
use mathlib.Core.Bool.{Bool, true, false}
use mathlib.Core.Logic.{inl, inr}
use mathlib.Core.List.{List, [], ◌∷◌}
use mathlib.Core.Option.{Option, none, some}
use native.Mathlib.Omega.{arith}

abbrev pub Dict {ℓ} : Type ℓ → Type ℓ
Dict V = List (Text × V)

module _ {ℓ} {V : Type ℓ} where
  -- v, ok := m[k]
  unfoldable pub get : Text → Dict V → Option V
  get k [] = none
  get k ((j, v) ∷ m) = if text_eq j k then some v else get k m

  -- m[k] = v
  unfoldable pub put : Text → V → Dict V → Dict V
  put k v [] = (k, v) ∷ []
  put k v ((j, w) ∷ m) = if text_eq j k then (k, v) ∷ m else (j, w) ∷ put k v m

  -- delete(m, k)
  unfoldable pub delete : Text → Dict V → Dict V
  delete k [] = []
  delete k ((j, v) ∷ m) = let rest = delete k m in if text_eq j k then rest else (j, v) ∷ rest

  pub get-put :
      (k j : Text) (v : V) (m : Dict V)
      → get j (put k v m) ≡ (if text_eq k j then some v else get j m)
  unfolding get put
  get-put k j v [] = refl
  get-put k j v ((i, w) ∷ m) =
      ground (arith, text_eq_iff k j, text_eq_iff i k, text_eq_iff i j, get-put k j v m)

  pub get-delete :
      (k j : Text) (m : Dict V) → get j (delete k m) ≡ (if text_eq k j then none else get j m)
  unfolding get delete
  get-delete k j [] = ground arith
  get-delete k j ((i, w) ∷ m) =
      ground (arith, text_eq_iff k j, text_eq_iff i k, text_eq_iff i j, get-delete k j m)

  pub get-put_self : (k : Text) (v : V) (m : Dict V) → get k (put k v m) ≡ some v
  get-put_self k v m = ground (arith, get-put k k v m, text_eq_refl k)

  -- A write grows the map by one, and only at a new key.
  pub length-put :
      (k : Text) (v : V) (m : Dict V)
      → length (put k v m) ≡ (if is_some (get k m) then length m else suc (length m))
  unfolding get put
  length-put k v [] = refl
  length-put k v ((j, w) ∷ m) = ground (arith, length-put k v m)

  pub length-delete-le : (k : Text) (m : Dict V) → length (delete k m) ≤ length m
  unfolding delete
  length-delete-le k [] = omega arith
  length-delete-le k ((j, w) ∷ m) = ground (arith, length-delete-le k m)

  pub length-delete-lt :
      (k : Text) (m : Dict V) → is_some (get k m) ≡ true → length (delete k m) < length m
  unfolding get delete
  length-delete-lt k [] h = absurd (ground arith)
  length-delete-lt k ((j, w) ∷ m) h = ground (arith, length-delete-le k m, length-delete-lt k m)

pub ruleset dict_laws = (get-put, get-delete)

module _ {ℓ} {V : Type ℓ} where
  -- No entry of `m` has the key `k`.
  abbrev pub Fresh : Text → Dict V → Type 0
  Fresh k [] = Unit {0}
  Fresh k ((j, v) ∷ m) = (text_eq j k ≡ false) × Fresh k m

  abbrev pub Distinct : Dict V → Type 0
  Distinct [] = Unit {0}
  Distinct ((k, v) ∷ m) = Fresh k m × Distinct m

  -- The entries whose value passes a test.
  unfoldable pub select : (V → Bool) → Dict V → Dict V
  select p [] = []
  select p ((k, v) ∷ m) = let rest = select p m in if p v then (k, v) ∷ rest else rest

  abbrev pub passing : (V → Bool) → Option V → Option V
  passing p none = none
  passing p (some v) = if p v then some v else none

  Fresh-put :
      (j k : Text) (v : V) (m : Dict V) → text_eq k j ≡ false → Fresh j m → Fresh j (put k v m)
  unfolding put
  Fresh-put j k v [] h f = (h, tt)
  Fresh-put j k v ((i, w) ∷ m) h f = ground (arith, Fresh-put j k v m h f.1)

  Fresh-delete : (j k : Text) (m : Dict V) → Fresh j m → Fresh j (delete k m)
  unfolding delete
  Fresh-delete j k [] f = tt
  Fresh-delete j k ((i, w) ∷ m) f = ground (arith, Fresh-delete j k m f.1)

  pub Fresh-select : (j : Text) (p : V → Bool) (m : Dict V) → Fresh j m → Fresh j (select p m)
  unfolding select
  Fresh-select j p [] f = tt
  Fresh-select j p ((i, w) ∷ m) f = ground (arith, Fresh-select j p m f.1)

  pub get-Fresh : (k : Text) (m : Dict V) → Fresh k m → get k m ≡ none
  unfolding get
  get-Fresh k [] f = refl
  get-Fresh k ((j, w) ∷ m) f = ground (arith, get-Fresh k m f.1)

  pub put-Distinct : (k : Text) (v : V) (m : Dict V) → Distinct m → Distinct (put k v m)
  unfolding put
  put-Distinct k v [] d = (tt, tt)
  put-Distinct k v ((j, w) ∷ m) d = elim (Bool-cases (text_eq j k)) [
    | inl e ↦ rw (e, put) (rw ((text_eq_iff j k).0 e) at (d.0), d.1)
    | inr e ↦ rw (e, put) (Fresh-put j k v m (not_sym j k e) d.0, put-Distinct k v m d.1)
  ]
    where
      not_sym : (s t : Text) → text_eq s t ≡ false → text_eq t s ≡ false
      not_sym s t h = ground (arith, text_eq_iff s t, text_eq_iff t s)

  pub delete-Distinct : (k : Text) (m : Dict V) → Distinct m → Distinct (delete k m)
  unfolding delete
  delete-Distinct k [] d = tt
  delete-Distinct k ((j, w) ∷ m) d = ground (arith, delete-Distinct k m d.1, Fresh-delete j k m d.0)

  pub select-Distinct : (p : V → Bool) (m : Dict V) → Distinct m → Distinct (select p m)
  unfolding select
  select-Distinct p [] d = tt
  select-Distinct p ((j, w) ∷ m) d = ground (arith, select-Distinct p m d.1, Fresh-select j p m d.0)

  pub get-select :
      (p : V → Bool) (k : Text) (m : Dict V) → Distinct m → get k (select p m) ≡ passing p (get k m)
  unfolding get select
  get-select p k [] d = refl
  get-select p k ((j, w) ∷ m) d = elim (Bool-cases (text_eq j k)) [
    | inl e ↦
        let f =
          get-Fresh k (select p m) (Fresh-select k p m (rw ((text_eq_iff j k).0 e) at (d.0))) in
        ground (arith, f)
    | inr e ↦ ground (arith, get-select p k m d.1)
  ]

  pub length-select-le : (p : V → Bool) (m : Dict V) → length (select p m) ≤ length m
  unfolding select
  length-select-le p [] = omega arith
  length-select-le p ((k, v) ∷ m) = ground (arith, length-select-le p m)

  -- for k := range m { delete(m, k); break }: the entry that the range meets first is any one, here
  -- the one that `pick` names.
  unfoldable pub delete_first : ℕ → Dict V → Dict V
  delete_first pick m = elim (get_elem? m (pick % length m)) [ none ↦ m | some (k, v) ↦ delete k m ]

  at-is_some :
      (m : Dict V) (i : ℕ) (k : Text) (v : V)
      → get_elem? m i ≡ some (k, v)
      → is_some (get k m) ≡ true
  unfolding get
  at-is_some [] i k v e = cc
  at-is_some ((j, w) ∷ m) zero k v e = ground (arith, text_eq_refl k)
  at-is_some ((j, w) ∷ m) (suc i) k v e = ground (arith, at-is_some m i k v e)

  at-in_range : (m : Dict V) (i : ℕ) → i < length m → is_some (get_elem? m i) ≡ true
  at-in_range [] i h = absurd (omega arith)
  at-in_range (x ∷ m) zero h = refl
  at-in_range (x ∷ m) (suc i) h = at-in_range m i (omega arith)

  pub length-delete_first :
      (pick : ℕ) (m : Dict V) → 0 < length m → length (delete_first pick m) < length m
  unfolding delete_first
  length-delete_first pick m h = elim (Option-cases (get_elem? m (pick % length m))) [
    | inl e ↦ absurd (ground (arith, at-in_range m (pick % length m) (grind arith)))
    | inr ((k, v), e) ↦
        rw (e, delete_first) (length-delete-lt k m (at-is_some m (pick % length m) k v e))
  ]

  pub delete_first-Distinct : (pick : ℕ) (m : Dict V) → Distinct m → Distinct (delete_first pick m)
  unfolding delete_first
  delete_first-Distinct pick m d = elim (Option-cases (get_elem? m (pick % length m))) [
    | inl e ↦ rw (e, delete_first) d
    | inr ((k, v), e) ↦ rw (e, delete_first) (delete-Distinct k m d)
  ]

  -- What is left was there before.
  pub get-delete_first :
      (pick : ℕ) (k : Text) (m : Dict V) (v : V)
      → get k (delete_first pick m) ≡ some v
      → get k m ≡ some v
  unfolding delete_first
  get-delete_first pick k m v h = elim (Option-cases (get_elem? m (pick % length m))) [
    | inl e ↦ rw (e, delete_first) at h
    | inr ((j, w), e) ↦ ground (arith, get-delete j k m)
  ]
