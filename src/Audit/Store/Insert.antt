-- ===== src/Audit/Store/Insert.antt =====
-- internal/audit/sqlite.go: what Insert leaves in the table.
use linkedin_api.Base.{
  ◌≡◌, refl, sym, ap, ◌∙◌, inl, inr, Option, none, some, List, [], ◌∷◌, ◌++◌, map, Option-cases,
}
use mathlib.Core.List.{append-nil, append_assoc}
use linkedin_api.Domain.Errors.{Err}
use linkedin_api.Audit.Event.{Record}
use linkedin_api.Audit.Store.{Row, Table, Calls, row_of, exec_all, insert}

exec_all_lem :
    (answers : List (Option Err)) (rows : List Row) (batch : List Record)
    → (exec_all answers rows batch).0 ≡ none
    → (exec_all answers rows batch).1 ≡ rows ++ map row_of batch
unfolding exec_all
exec_all_lem answers rows [] h = sym (append-nil rows)
exec_all_lem [] rows (r ∷ batch) h =
    exec_all_lem [] (rows ++ (row_of r ∷ [])) batch h
    ∙ append_assoc rows (row_of r ∷ []) (map row_of batch)
exec_all_lem (none ∷ answers) rows (r ∷ batch) h =
    exec_all_lem answers (rows ++ (row_of r ∷ [])) batch h
    ∙ append_assoc rows (row_of r ∷ []) (map row_of batch)
exec_all_lem (some err ∷ answers) rows (r ∷ batch) h = cc

-- What Insert leaves, by the error that it returns.
abbrev pub Atomic : Table → List Record → Option Err × Table → Type 0
Atomic table batch (none, after) = after ≡ table ++ map row_of batch
Atomic table batch (some err, after) = after ≡ table

-- Insert adds the rows of the whole batch or, with an error, none.
pub insert-Atomic :
    (c : Calls) (table : Table) (batch : List Record) → Atomic table batch (insert c table batch)
unfolding insert
insert-Atomic c table [] = sym (append-nil table)
insert-Atomic c table (r ∷ batch) = elim (Option-cases c.begin) [
  | inr (err, b) ↦ rw (b, insert) refl
  | inl b ↦ elim (Option-cases c.prepare) [
    | inr (err, p) ↦ rw (b, p, insert) refl
    | inl p ↦ elim (Option-cases (exec_all c.execs [] (r ∷ batch)).0) [
      | inr (err, x) ↦ rw (b, p, x, insert) refl
      | inl x ↦ elim (Option-cases c.commit) [
        | inr (err, y) ↦ rw (b, p, x, y, insert) refl
        | inl y ↦
            rw (b, p, x, y, insert)
              (ap (λ rows. table ++ rows) (exec_all_lem c.execs [] (r ∷ batch) x))
      ]
    ]
  ]
]
