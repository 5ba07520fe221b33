-- ===== src/Audit/Query/Percentile.antt =====
-- internal/audit/sqlite.go: percentile is the latency of its rank.
use linkedin_api.Base.{
  ℕ, zero, suc, ◌+◌, ◌*◌, ◌/◌, ◌≤◌, ◌<◌, ◌≡◌, refl, ap, ◌∙◌, inl, inr, Bool, some, List, [], ◌∷◌,
  arith, ltb, leb, Bool-cases, length, All, get_elem?,
}
use mathlib.Core.Option.{some-injective}
use linkedin_api.Audit.Store.{Table, bool_to_int}
use linkedin_api.Audit.Query.{window, percentile, sort_numbers, insert_number, latencies, count_if}

length-insert_number : (n : ℕ) (ms : List ℕ) → length (insert_number n ms) ≡ suc (length ms)
unfolding insert_number
length-insert_number n [] = refl
length-insert_number n (m ∷ ms) = ground (arith, length-insert_number n ms)

length-sort_numbers : (ns : List ℕ) → length (sort_numbers ns) ≡ length ns
unfolding sort_numbers
length-sort_numbers [] = refl
length-sort_numbers (n ∷ ns) =
    length-insert_number n (sort_numbers ns) ∙ ap suc (length-sort_numbers ns)

-- Sorting keeps how many numbers pass a test.
count_if-insert_number :
    (p : ℕ → Bool) (n : ℕ) (ms : List ℕ)
    → count_if p (insert_number n ms) ≡ bool_to_int (p n) + count_if p ms
unfolding count_if insert_number
count_if-insert_number p n [] = refl
count_if-insert_number p n (m ∷ ms) = elim (Bool-cases (leb n m)) [
  | inl e ↦ rw (e, insert_number, count_if) refl
  | inr e ↦ rw (e, insert_number, count_if) (omega (arith, count_if-insert_number p n ms))
]

pub count_if-sort_numbers :
    (p : ℕ → Bool) (ns : List ℕ) → count_if p (sort_numbers ns) ≡ count_if p ns
unfolding count_if sort_numbers
count_if-sort_numbers p [] = refl
count_if-sort_numbers p (n ∷ ns) =
    count_if-insert_number p n (sort_numbers ns)
    ∙ ap (λ k. bool_to_int (p n) + k) (count_if-sort_numbers p ns)

abbrev IsSorted : List ℕ → Type 0
IsSorted [] = Unit {0}
IsSorted (n ∷ ns) = All (λ m. n ≤ m) ns × IsSorted ns

All-insert_number :
    (k n : ℕ) (ms : List ℕ) → k ≤ n → All (λ m. k ≤ m) ms → All (λ m. k ≤ m) (insert_number n ms)
unfolding insert_number
All-insert_number k n [] h a = (h, tt)
All-insert_number k n (m ∷ ms) h a = ground (arith, All-insert_number k n ms h a.1)

All-le : (k n : ℕ) (ms : List ℕ) → k ≤ n → All (λ m. n ≤ m) ms → All (λ m. k ≤ m) ms
All-le k n [] h a = tt
All-le k n (m ∷ ms) h a = (omega (arith, a.0), All-le k n ms h a.1)

insert_number-IsSorted : (n : ℕ) (ms : List ℕ) → IsSorted ms → IsSorted (insert_number n ms)
unfolding insert_number
insert_number-IsSorted n [] s = (tt, tt)
insert_number-IsSorted n (m ∷ ms) s = elim (Bool-cases (leb n m)) [
  | inl e ↦ rw (e, insert_number) ((ground (arith, e), All-le n m ms (ground (arith, e)) s.0), s)
  | inr e ↦
      rw (e, insert_number)
        (All-insert_number m n ms (ground (arith, e)) s.0, insert_number-IsSorted n ms s.1)
]

sort_numbers-IsSorted : (ns : List ℕ) → IsSorted (sort_numbers ns)
unfolding sort_numbers
sort_numbers-IsSorted [] = tt
sort_numbers-IsSorted (n ∷ ns) =
    insert_number-IsSorted n (sort_numbers ns) (sort_numbers-IsSorted ns)

-- No number of a list of numbers no less than a bound is below it.
count_if-none :
    (k v : ℕ) (ns : List ℕ) → v ≤ k → All (λ m. k ≤ m) ns → count_if (λ m. ltb m v) ns ≡ 0
unfolding count_if
count_if-none k v [] h a = refl
count_if-none k v (n ∷ ns) h a = ground (arith, count_if-none k v ns h a.1)

All-get_elem? :
    (k : ℕ) (ns : List ℕ) (i v : ℕ) → All (λ m. k ≤ m) ns → get_elem? ns i ≡ some v → k ≤ v
All-get_elem? k [] i v a e = cc
All-get_elem? k (n ∷ ns) zero v a e = ground arith
All-get_elem? k (n ∷ ns) (suc i) v a e = All-get_elem? k ns i v a.1 e

-- In a sorted list, more than `i` numbers are no greater than the one at `i`, and no more than `i`
-- are less.
rank :
    (ns : List ℕ) (i v : ℕ)
    → IsSorted ns
    → get_elem? ns i ≡ some v
    → (i < count_if (λ m. leb m v) ns) × (count_if (λ m. ltb m v) ns ≤ i)
unfolding count_if
rank [] i v s e = cc
rank (n ∷ ns) zero v s e =
    let same : n ≡ v = some-injective _ _ e in
    let below = count_if-none n v ns (omega (arith, same)) s.0 in ground (arith, same, below)
rank (n ∷ ns) (suc i) v s e = ground (arith, rank ns i v s.1 e, All-get_elem? n ns i v s.0 e)

length-latencies : (rows : Table) → length (latencies rows) ≡ length rows
length-latencies [] = refl
length-latencies (r ∷ rows) = ap suc (length-latencies rows)

in_range : (ns : List ℕ) (i : ℕ) → i < length ns → (v : ℕ) × (get_elem? ns i ≡ some v)
in_range [] i h = absurd (omega arith)
in_range (n ∷ ns) zero h = (n, refl)
in_range (n ∷ ns) (suc i) h = in_range ns i (omega arith)

-- Of the latencies, at most 95 percent are below a number, and more than 95 percent are not above.
pub record IsP95 (ns : List ℕ) (v : ℕ) : Type 0 where
  pub below : 100 * count_if (λ m. ltb m v) ns ≤ 95 * length ns
  pub not_above : 95 * length ns < 100 * count_if (λ m. leb m v) ns

percentile-at :
    (since : ℕ) (table : Table) (v : ℕ)
    → get_elem?
        (sort_numbers (latencies (window since table)))
        (length (window since table) * 95 / 100)
      ≡ some v
    → percentile since table 95 ≡ v
unfolding percentile
percentile-at since table v e = rw (e, percentile) refl

-- Over a window with a record, the 95th percentile that the summary gives is a number that more
-- than 95 percent of the latencies do not exceed and at most 95 percent are below.
pub percentile-IsP95 :
    (since : ℕ) (table : Table)
    → 0 < length (window since table)
    → IsP95 (latencies (window since table)) (percentile since table 95)
percentile-IsP95 since table h =
    let rows = window since table in
    let ns = latencies rows in
    let i = length rows * 95 / 100 in
    let same = length-latencies rows in
    let (v, e) = in_range (sort_numbers ns) i (omega (arith, same, length-sort_numbers ns)) in
    let (le, lt) = rank (sort_numbers ns) i v (sort_numbers-IsSorted ns) e in
    let le' = count_if-sort_numbers (λ m. leb m v) ns in
    let lt' = count_if-sort_numbers (λ m. ltb m v) ns in
    rw (percentile-at since table v e)
      (record { below = omega (arith, same, lt, lt'); not_above = omega (arith, same, le, le') })
