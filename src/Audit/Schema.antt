-- ===== src/Audit/Schema.antt =====
-- internal/audit/sqlite.go: the columns of the audit table when Open returns it. An existing table keeps
-- its columns and gains those of addedColumns that it lacks, in the order in which the range over that
-- map meets them.
use linkedin_api.Base.{
  ◌≡◌, refl, inl, inr, Bool, true, false, not, ◌||◌, ◌&&◌, Option, none, some, List, [], ◌∷◌, ◌++◌,
  arith, if◌then◌else◌, Bool-cases, Option-cases, any, All, Text, codes, text_eq, text_eq_refl,
}
use linkedin_api.Domain.Errors.{Err}

-- The columns of a table that is created.
abbrev pub schema : List Text
schema =
    codes "id"
    ∷ codes "ts"
    ∷ codes "request_id"
    ∷ codes "client_ip"
    ∷ codes "key_id"
    ∷ codes "profile_id"
    ∷ codes "credential_mode"
    ∷ codes "cred_fp"
    ∷ codes "status"
    ∷ codes "rate_decision"
    ∷ codes "cached"
    ∷ codes "upstream_called"
    ∷ codes "upstream_outcome"
    ∷ codes "retries"
    ∷ codes "latency_ms"
    ∷ codes "error_class"
    ∷ []

-- The keys of addedColumns, in one order of its range.
abbrev pub added_columns : List Text
added_columns = codes "credential_mode" ∷ codes "cred_fp" ∷ []

abbrev pub has_column : List Text → Text → Bool
has_column columns name = any (text_eq name) columns

-- The loop of reconcileColumns. `present` is what the table had before it, and a statement fails by its
-- column.
unfoldable pub add_missing :
    (Text → Option Err) → List Text → List Text → List Text → Option Err × List Text
add_missing fails present columns [] = (none, columns)
add_missing fails present columns (name ∷ names) =
    let added = add_missing fails present (columns ++ (name ∷ [])) names in
    let skipped = add_missing fails present columns names in
    if has_column present name
    then skipped
    else elim (fails name) [ none ↦ added | some err ↦ (some err, columns) ]

-- Which statements fail: the schema's, the query for the columns, and those that add one.
pub record Calls : Type 0 where
  pub apply : Option Err
  pub read : Option Err
  pub alter : Text → Option Err

-- The errors are returned without the words that the code puts around them.
unfoldable pub reconcile_columns : Calls → List Text → List Text → Option Err × List Text
unfolding add_missing
reconcile_columns c added columns = elim c.read [
  | some err ↦ (some err, columns)
  | none ↦ add_missing c.alter columns columns added
]

-- The table after the schema's CREATE TABLE IF NOT EXISTS.
abbrev pub before : Option (List Text) → List Text
before none = schema
before (some columns) = columns

-- Open, on the columns of the table that there was, if there was one.
unfoldable pub open_table : Calls → List Text → Option (List Text) → Option Err × List Text
unfolding reconcile_columns
open_table c added existing = elim c.apply [
  | some err ↦ (some err, elim existing [ none ↦ [] | some columns ↦ columns ])
  | none ↦ reconcile_columns c added (before existing)
]

any-append :
    (name : Text) (xs ys : List Text)
    → has_column (xs ++ ys) name ≡ (has_column xs name || has_column ys name)
any-append name [] ys = refl
any-append name (x ∷ xs) ys = ground (arith, any-append name xs ys)

-- What the loop leaves if no statement fails.
record Reconciled (present columns names after : List Text) : Type 0 where
  kept : (name : Text) → has_column columns name ≡ true → has_column after name ≡ true
  gained : All (λ name. (has_column present name || has_column after name) ≡ true) names

add_missing-Reconciled :
    (fails : Text → Option Err) (present columns names : List Text)
    → (add_missing fails present columns names).0 ≡ none
    → Reconciled present columns names (add_missing fails present columns names).1
unfolding add_missing
add_missing-Reconciled fails present columns [] h = record { kept = λ name k. k; gained = tt }
add_missing-Reconciled fails present columns (name ∷ names) h =
    elim (Bool-cases (has_column present name)) [
      | inl e ↦
          let rest =
            add_missing-Reconciled fails present columns names (rw (e, add_missing) at h) in
          rw (e, add_missing)
            (record { kept = rest.kept; gained = (ground (arith, e), rest.gained) })
      | inr e ↦ elim (Option-cases (fails name)) [
        | inr (err, f) ↦ absurd (ground (arith, h, e, f))
        | inl f ↦
            let longer = columns ++ (name ∷ []) in
            let rest =
              add_missing-Reconciled fails present longer names (rw (e, f, add_missing) at h) in
            let old = λ (n : Text) (k : has_column columns n ≡ true).
              rest.kept n (ground (arith, k, any-append n columns (name ∷ []))) in
            let new =
              rest.kept name
                (ground (arith, text_eq_refl name, any-append name columns (name ∷ []))) in
            rw (e, f, add_missing)
              (record { kept = old; gained = (ground (arith, new), rest.gained) })
      ]
    ]

-- Every column that a table had, and every added one.
pub record Complete (added : List Text) (existing : Option (List Text)) (after : List Text)
    : Type 0 where
  pub kept :
      (name : Text) → (has_column (before existing) name && not (has_column after name)) ≡ false
  pub gained : All (λ name. has_column after name ≡ true) added

present_or_gained :
    (cs after names : List Text)
    → ((name : Text) → has_column cs name ≡ true → has_column after name ≡ true)
    → All (λ name. (has_column cs name || has_column after name) ≡ true) names
    → All (λ name. has_column after name ≡ true) names
present_or_gained cs after [] k a = tt
present_or_gained cs after (name ∷ names) k a = (
  ground (arith, a.0, k name, Bool-cases (has_column cs name)),
  present_or_gained cs after names k a.1,
)

complete :
    (added : List Text) (existing : Option (List Text)) (after : List Text)
    → Reconciled (before existing) (before existing) added after
    → Complete added existing after
complete added existing after r = record {
  kept = λ name. ground (arith, r.kept name, Bool-cases (has_column (before existing) name));
  gained = present_or_gained (before existing) after added r.kept r.gained;
}

-- When Open succeeds, the table has every column that it had before, or every column of the schema
-- if it is new, and every added column, in whichever order those are added.
pub open_table-Complete :
    (c : Calls) (added : List Text) (existing : Option (List Text))
    → (open_table c added existing).0 ≡ none
    → Complete added existing (open_table c added existing).1
unfolding open_table reconcile_columns
open_table-Complete c added existing h = elim (Option-cases c.apply) [
  | inr (err, e) ↦ absurd (ground (arith, h, e))
  | inl e ↦ elim (Option-cases c.read) [
    | inr (err, r) ↦ absurd (ground (arith, h, e, r))
    | inl r ↦
        let cs = before existing in
        rw (e, r, open_table, reconcile_columns)
          (complete added existing _ (
            add_missing-Reconciled c.alter cs cs added
              (rw (e, r, open_table, reconcile_columns) at h)))
  ]
]
