-- ===== src/Audit/Query/Groups.antt =====
-- internal/audit/sqlite.go: the groups of rows by a column, and their order by size.
use linkedin_api.Base.{
  ℕ, zero, suc, ◌+◌, ◌≤◌, ◌≡◌, refl, ap, ◌∙◌, inl, inr, false, Option, none, some, [], ◌∷◌, arith,
  leb, if◌then◌else◌, Bool-cases, All, Text, text_eq, text_eq_iff,
}
use linkedin_api.Base.Dict.{Dict, get, get-put, Fresh, Distinct, put-Distinct}
use linkedin_api.Audit.Store.{Row, Table, bool_to_int}
use linkedin_api.Audit.Query.{tally, groups, insert_group, sort_groups, count_if}

abbrev pub occurrences : (Row → Text) → Text → Table → ℕ
occurrences key k rows = count_if (λ r. text_eq (key r) k) rows

abbrev pub nonzero : ℕ → Option ℕ
nonzero zero = none
nonzero (suc n) = some (suc n)

zero_add : (n : ℕ) → n ≡ 0 + n
zero_add n = omega arith

get-tally :
    (key k : Text) (m : Dict ℕ) (n : ℕ)
    → get k m ≡ nonzero n
    → get k (tally key m) ≡ nonzero (bool_to_int (text_eq key k) + n)
get-tally key k m n h =
    let next : ℕ = elim (get key m) [ none ↦ 1 | some i ↦ suc i ] in
    let at = get-put key k next m in
    elim (Bool-cases (text_eq key k)) [
      | inr e ↦ rw (at, e) (h ∙ ap nonzero (zero_add n))
      | inl e ↦ rw (at, e) (counted n (rw (← (text_eq_iff key k).0 e) at h))
    ]
  where
    counted :
        (i : ℕ)
        → get key m ≡ nonzero i
        → ◌≡◌ {A = Option ℕ}
            (some (elim (get key m) [ none ↦ 1 | some i ↦ suc i ]))
            (nonzero (1 + i))
    counted zero q = rw q refl
    counted (suc i) q = rw q (ground arith)

pub get-groups :
    (key : Row → Text) (k : Text) (rows : Table)
    → get k (groups key rows) ≡ nonzero (occurrences key k rows)
unfolding groups count_if
get-groups key k [] = refl
get-groups key k (r ∷ rows) = get-tally (key r) k (groups key rows) _ (get-groups key k rows)

pub groups-Distinct : (key : Row → Text) (rows : Table) → Distinct (groups key rows)
unfolding groups
groups-Distinct key [] = tt
groups-Distinct key (r ∷ rows) = put-Distinct (key r) _ (groups key rows) (groups-Distinct key rows)

Fresh-insert_group :
    (j : Text) (g : Text × ℕ) (m : Dict ℕ)
    → text_eq g.0 j ≡ false
    → Fresh j m
    → Fresh j (insert_group g m)
unfolding insert_group
Fresh-insert_group j g [] h f = (h, tt)
Fresh-insert_group j g (e ∷ m) h f = ground (arith, Fresh-insert_group j g m h f.1)

not_sym : (s t : Text) → text_eq s t ≡ false → text_eq t s ≡ false
not_sym s t h = ground (arith, text_eq_iff s t, text_eq_iff t s)

insert_group-Distinct :
    (g : Text × ℕ) (m : Dict ℕ) → Fresh g.0 m → Distinct m → Distinct (insert_group g m)
unfolding insert_group
insert_group-Distinct g [] f d = (tt, tt)
insert_group-Distinct g (e ∷ m) f d = elim (Bool-cases (leb e.1 g.1)) [
  | inl h ↦ rw (h, insert_group) (f, d)
  | inr h ↦
      rw (h, insert_group)
        (Fresh-insert_group e.0 g m (not_sym e.0 g.0 f.0) d.0, insert_group-Distinct g m f.1 d.1)
]

get-insert_group :
    (k : Text) (g : Text × ℕ) (m : Dict ℕ)
    → Fresh g.0 m
    → get k (insert_group g m) ≡ (if text_eq g.0 k then some g.1 else get k m)
unfolding get insert_group
get-insert_group k g [] f = refl
get-insert_group k g (e ∷ m) f = ground (
  arith,
  get-insert_group k g m f.1,
  text_eq_iff g.0 k,
  text_eq_iff e.0 k,
  text_eq_iff e.0 g.0,
  f.0,
)

-- In descending order of counts.
abbrev pub Descending : Dict ℕ → Type 0
Descending [] = Unit {0}
Descending (e ∷ m) = All (λ x. x.1 ≤ e.1) m × Descending m

All-insert_group :
    (b : ℕ) (g : Text × ℕ) (m : Dict ℕ)
    → g.1 ≤ b
    → All (λ x. x.1 ≤ b) m
    → All (λ x. x.1 ≤ b) (insert_group g m)
unfolding insert_group
All-insert_group b g [] h a = (h, tt)
All-insert_group b g (e ∷ m) h a = ground (arith, All-insert_group b g m h a.1)

All-le : (a b : ℕ) (m : Dict ℕ) → a ≤ b → All (λ x. x.1 ≤ a) m → All (λ x. x.1 ≤ b) m
All-le a b [] h x = tt
All-le a b (e ∷ m) h x = (omega (arith, x.0), All-le a b m h x.1)

insert_group-Descending : (g : Text × ℕ) (m : Dict ℕ) → Descending m → Descending (insert_group g m)
unfolding insert_group
insert_group-Descending g [] d = (tt, tt)
insert_group-Descending g (e ∷ m) d = elim (Bool-cases (leb e.1 g.1)) [
  | inl h ↦ rw (h, insert_group) ((ground (arith, h), All-le e.1 g.1 m (ground (arith, h)) d.0), d)
  | inr h ↦
      rw (h, insert_group)
        (All-insert_group e.1 g m (ground (arith, h)) d.0, insert_group-Descending g m d.1)
]

-- What sorting keeps and makes.
pub record Sorted (m n : Dict ℕ) : Type 0 where
  pub distinct : Distinct n
  pub descending : Descending n
  pub same : (k : Text) → get k n ≡ get k m
  pub fresh : (k : Text) → Fresh k m → Fresh k n

pub sort_groups-Sorted : (m : Dict ℕ) → Distinct m → Sorted m (sort_groups m)
unfolding sort_groups get
sort_groups-Sorted [] d = record {
  distinct = tt;
  descending = tt;
  same = λ k. refl;
  fresh = λ k f. tt;
}
sort_groups-Sorted (g ∷ m) d =
    let s = sort_groups-Sorted m d.1 in
    let f = s.fresh g.0 d.0 in
    record {
      distinct = insert_group-Distinct g (sort_groups m) f s.distinct;
      descending = insert_group-Descending g (sort_groups m) s.descending;
      same = λ k. ground (arith, get-insert_group k g (sort_groups m) f, s.same k);
      fresh = λ k h. Fresh-insert_group k g (sort_groups m) h.0 (s.fresh k h.1);
    }
