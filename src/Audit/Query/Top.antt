-- ===== src/Audit/Query/Top.antt =====
-- internal/audit/sqlite.go: topBy gives the most frequent values of a column, with how often they occur.
use linkedin_api.Base.{
  ℕ, zero, suc, ◌≤◌, ◌≡◌, refl, sym, ap, ◌∙◌, ◌⊎◌, inl, inr, none, some, [], ◌∷◌, arith, Bool-cases,
  Option-cases, length, All, Text, text_eq,
}
use linkedin_api.Base.Dict.{Dict, get}
use linkedin_api.Audit.Store.{Row, Table}
use linkedin_api.Audit.Query.{groups, sort_groups, take, top_by}
use linkedin_api.Audit.Query.Groups.{
  occurrences, nonzero, get-groups, groups-Distinct, Descending, sort_groups-Sorted,
}

All-get : (b : ℕ) (k : Text) (m : Dict ℕ) (c : ℕ) → All (λ x. x.1 ≤ b) m → get k m ≡ some c → c ≤ b
unfolding get
All-get b k [] c a h = cc
All-get b k ((j, n) ∷ m) c a h = ground (arith, All-get b k m c a.1)

get-take : (n : ℕ) (k : Text) (m : Dict ℕ) (c : ℕ) → get k (take n m) ≡ some c → get k m ≡ some c
unfolding get take
get-take zero k m c h = cc
get-take (suc n) k [] c h = h
get-take (suc n) k ((j, i) ∷ m) c h = ground (arith, get-take n k m c)

length-take-le : (n : ℕ) (m : Dict ℕ) → length (take n m) ≤ n
unfolding take
length-take-le zero m = omega arith
length-take-le (suc n) [] = omega arith
length-take-le (suc n) (e ∷ m) = omega (arith, length-take-le n m)

All-take : (n b : ℕ) (m : Dict ℕ) → All (λ x. x.1 ≤ b) m → All (λ x. x.1 ≤ b) (take n m)
unfolding take
All-take zero b m a = tt
All-take (suc n) b [] a = tt
All-take (suc n) b (e ∷ m) a = (a.0, All-take n b m a.1)

take-Descending : (n : ℕ) (m : Dict ℕ) → Descending m → Descending (take n m)
unfolding take
take-Descending zero m d = tt
take-Descending (suc n) [] d = tt
take-Descending (suc n) (e ∷ m) d = (All-take n e.1 m d.0, take-Descending n m d.1)

-- A group is taken, or as many are taken as may be and none of them is smaller.
abbrev Kept : ℕ → Text → ℕ → Dict ℕ → Type 0
Kept n k c taken = (get k taken ≡ some c) ⊎ ((length taken ≡ n) × All (λ x. c ≤ x.1) taken)

take-Kept :
    (n : ℕ) (k : Text) (m : Dict ℕ) (c : ℕ)
    → Descending m
    → get k m ≡ some c
    → Kept n k c (take n m)
unfolding get take
take-Kept zero k m c d h = inr (refl, tt)
take-Kept (suc n) k [] c d h = inl h
take-Kept (suc n) k ((j, i) ∷ m) c d h = elim (Bool-cases (text_eq j k)) [
  | inl e ↦ inl (rw (e, get) (rw (e, get) at h))
  | inr e ↦
      let h' = rw (e, get) at h in
      elim (take-Kept n k m c d.1 h') [
        | inl x ↦ inl (rw (e, get) x)
        | inr x ↦ inr (ap suc x.0, (All-get i k m c d.0 h', x.1))
      ]
]

-- A value that occurs `c` times stands in the list with that number, or does not stand there, and then
-- it does not occur, or the list is full of values that occur no less often.
abbrev pub Listed : ℕ → ℕ → Text → Dict ℕ → Type 0
Listed limit c k top =
    (get k top ≡ some c)
    ⊎ ((get k top ≡ none) × ((c ≡ 0) ⊎ ((length top ≡ limit) × All (λ x. c ≤ x.1) top)))

Listed-take :
    (limit : ℕ) (k : Text) (m : Dict ℕ) (c : ℕ)
    → Descending m
    → get k m ≡ nonzero c
    → Listed limit c k (take limit m)
Listed-take limit k m c d h = elim (Option-cases (get k (take limit m))) [
  | inr (n, e) ↦
      inl (e ∙ sym (get-take limit k m n e) ∙ h ∙ counted c n (sym (get-take limit k m n e) ∙ h))
  | inl e ↦ inr (e, absent c h e)
]
  where
    counted : (c n : ℕ) → some n ≡ nonzero c → nonzero c ≡ some c
    counted zero n q = cc
    counted (suc c) n q = refl

    absent :
        (c : ℕ)
        → get k m ≡ nonzero c
        → get k (take limit m) ≡ none
        → (c ≡ 0) ⊎ ((length (take limit m) ≡ limit) × All (λ x. c ≤ x.1) (take limit m))
    absent zero q e = inl refl
    absent (suc c) q e = elim (take-Kept limit k m (suc c) d q) [
      | inl found ↦ absurd (ground (arith, found, e))
      | inr full ↦ inr full
    ]

-- What the groups of some rows, by a column, say that fill a list of at most `limit`.
pub record Top (key : Row → Text) (limit : ℕ) (rows : Table) (top : Dict ℕ) : Type 0 where
  pub bounded : length top ≤ limit
  pub descending : Descending top
  pub listed : (k : Text) → Listed limit (occurrences key k rows) k top

-- A list of the most frequent values has at most as many entries as asked for, in descending order
-- of counts; a value stands in it with the number of rows that have it, or is in no row, or the
-- list is full of values that are no rarer.
pub top_by-Top :
    (key : Row → Text) (limit : ℕ) (rows : Table) → Top key limit rows (top_by key limit rows)
unfolding top_by
top_by-Top key limit rows =
    let m = groups key rows in
    let s = sort_groups-Sorted m (groups-Distinct key rows) in
    let sorted = sort_groups m in
    record {
      bounded = length-take-le limit sorted;
      descending = take-Descending limit sorted s.descending;
      listed = λ k.
          Listed-take limit k sorted (occurrences key k rows) s.descending
            (s.same k ∙ get-groups key k rows);
    }
