-- ===== src/Audit/Store/Stored.antt =====
-- internal/audit: the store behind the writer. The calls of the writer's log go to the store one by
-- one, with the answers of the database to each.
use linkedin_api.Base.{
  ℕ, ◌≡◌, refl, sym, ap, ◌∙◌, true, Option, none, some, arith, inl, inr, Option-cases, Bool, not,
  ◌&&◌, ◌||◌, List, [], ◌∷◌, ◌++◌, map, keep, ltb, is_some, All,
}
use mathlib.Core.List.{append-nil, append_assoc, map-append}
use linkedin_api.Domain.Errors.{Err}
use linkedin_api.Audit.Event.{Record}
use linkedin_api.Audit.Writer.{
  WriterConfig, Event, StoreCall, inserts, deletes, new_writer, run, step, submitted, accepted,
  closes,
}
use linkedin_api.Audit.Writer.Conserved.{closes-run}
use linkedin_api.Audit.Writer.Purges.{PurgesBefore, RetainsFrom, closes-Purges}
use linkedin_api.Audit.Store.{Table, Row, Calls, insert, exec_all, row_of, purge, milliseconds}
use linkedin_api.Audit.Store.Insert.{Atomic, insert-Atomic}
use linkedin_api.Audit.Query.{window}
use linkedin_api.Audit.Query.Purged.{window-purge_rows}

-- No call fails.
abbrev pub succeeding : Calls
succeeding = record { begin = none; prepare = none; execs = []; commit = none }

-- What the database answers to a call of the store: the statements of an Insert, or a Purge.
pub record Answer : Type 0 where
  pub calls : Calls
  pub purged : Option Err

abbrev pub success : Answer
success = record { calls = succeeding; purged = none }

-- The answer to the first of the calls, and to the others: without one, a call succeeds.
abbrev pub first : List Answer → Answer
first [] = success
first (a ∷ answers) = a

abbrev pub others : List Answer → List Answer
others [] = []
others (a ∷ answers) = answers

unfoldable pub store_call : Answer → Table → StoreCall → Table
unfolding insert purge
store_call a table (inserts b) = (insert a.calls table b).1
store_call a table (deletes before) = (purge a.purged before table).1

-- The table after the calls.
unfoldable pub store_all : List Answer → Table → List StoreCall → Table
unfolding store_call
store_all answers table [] = table
store_all answers table (c ∷ cs) =
    store_all (others answers) (store_call (first answers) table c) cs

-- No Purge that succeeds is of an instant after the row's.
abbrev pub survives : List Answer → List StoreCall → Row → Bool
survives answers [] r = true
survives answers (inserts b ∷ cs) r = survives (others answers) cs r
survives answers (deletes before ∷ cs) r =
    (is_some (first answers).purged || not (ltb r.ts (milliseconds before)))
    && survives (others answers) cs r

-- The rows of a batch, if its Insert returns no error.
abbrev pub rows_of : Calls → List Record → Table
rows_of c b = elim (insert c [] b).0 [ none ↦ map row_of b | some err ↦ [] ]

-- The rows of the batches that were inserted, less those that a later Purge deletes.
abbrev pub remaining : List Answer → List StoreCall → Table
remaining answers [] = []
remaining answers (inserts b ∷ cs) =
    keep (survives (others answers) cs) (rows_of (first answers).calls b)
    ++ remaining (others answers) cs
remaining answers (deletes before ∷ cs) = remaining (others answers) cs

-- Whether Insert succeeds does not depend on the table.
insert-apart :
    (c : Calls) (table : Table) (b : List Record) → (insert c table b).0 ≡ (insert c [] b).0
unfolding insert
insert-apart c table [] = refl
insert-apart c table (r ∷ b) = ground arith

insert_lem :
    (c : Calls) (table : Table) (b : List Record)
    → (insert c table b).1
      ≡ elim (insert c [] b).0 [ none ↦ table ++ map row_of b | some err ↦ table ]
insert_lem c table b =
    by_outcome (insert c table b) (insert-Atomic c table b) (insert-apart c table b)
  where
    by_outcome :
        (r : Option Err × Table)
        → Atomic table b r
        → r.0 ≡ (insert c [] b).0
        → r.1 ≡ elim (insert c [] b).0 [ none ↦ table ++ map row_of b | some err ↦ table ]
    by_outcome (none, after) a e = rw (← e) a
    by_outcome (some err, after) a e = rw (← e) a

exec_all-none : (rows : List Row) (b : List Record) → (exec_all [] rows b).0 ≡ none
unfolding exec_all
exec_all-none rows [] = refl
exec_all-none rows (r ∷ b) = exec_all-none (rows ++ (row_of r ∷ [])) b

succeeds : (b : List Record) → (insert succeeding [] b).0 ≡ none
unfolding insert
succeeds [] = refl
succeeds (r ∷ b) = rw (exec_all-none [] (r ∷ b), insert) refl

succeeding_lem :
    (table : Table) (b : List Record) → (insert succeeding table b).1 ≡ table ++ map row_of b
succeeding_lem table b = rw (succeeds b) at (insert_lem succeeding table b)

insert-rows_of :
    (c : Calls) (table : Table) (b : List Record) → (insert c table b).1 ≡ table ++ rows_of c b
insert-rows_of c table b = elim (Option-cases (insert c [] b).0) [
  | inl e ↦ rw (e, rows_of) (rw e at (insert_lem c table b))
  | inr (err, e) ↦ rw (e, rows_of) (rw e at (insert_lem c table b) ∙ sym (append-nil table))
]

keep-append : (p : Row → Bool) (xs ys : Table) → keep p (xs ++ ys) ≡ keep p xs ++ keep p ys
keep-append p [] ys = refl
keep-append p (x ∷ xs) ys = ground (arith, keep-append p xs ys)

keep-keep : (p q : Row → Bool) (xs : Table) → keep p (keep q xs) ≡ keep (λ x. q x && p x) xs
keep-keep p q [] = refl
keep-keep p q (x ∷ xs) = ground (arith, keep-keep p q xs)

keep_all : (xs : Table) → keep (λ x. true) xs ≡ xs
keep_all [] = refl
keep_all (x ∷ xs) = ap (λ l. x ∷ l) (keep_all xs)

purge-keep :
    (failed : Option Err) (before : ℕ) (table : Table)
    → (purge failed before table).1
      ≡ keep (λ r. is_some failed || not (ltb r.ts (milliseconds before))) table
unfolding purge
purge-keep (some err) before table = sym (keep_all table)
purge-keep none before table = refl

-- The table holds what it held and what was inserted, less what was deleted later.
store_all_lem :
    (answers : List Answer) (table : Table) (cs : List StoreCall)
    → store_all answers table cs ≡ keep (survives answers cs) table ++ remaining answers cs
unfolding store_all store_call
store_all_lem answers table [] = sym (append-nil (keep (λ x. true) table) ∙ keep_all table)
store_all_lem answers table (inserts b ∷ cs) =
    let more = others answers in
    let c = (first answers).calls in
    store_all_lem more (insert c table b).1 cs
    ∙ ap (λ t. keep (survives more cs) t ++ remaining more cs) (insert-rows_of c table b)
    ∙ ap (λ t. t ++ remaining more cs) (keep-append (survives more cs) table (rows_of c b))
    ∙ append_assoc (keep (survives more cs) table) (keep (survives more cs) (rows_of c b))
        (remaining more cs)
store_all_lem answers table (deletes before ∷ cs) =
    let more = others answers in
    let failed = (first answers).purged in
    store_all_lem more (purge failed before table).1 cs
    ∙ ap (λ t. keep (survives more cs) t ++ remaining more cs) (purge-keep failed before table)
    ∙ ap (λ t. t ++ remaining more cs)
        (keep-keep (survives more cs) (λ r. is_some failed || not (ltb r.ts (milliseconds before)))
          table)

window-append :
    (since : ℕ) (xs ys : Table) → window since (xs ++ ys) ≡ window since xs ++ window since ys
unfolding window
window-append since xs ys = keep-append _ xs ys

-- A window that starts after every purge misses no record.
window-store_all :
    (since : ℕ) (table : Table) (cs : List StoreCall)
    → All (PurgesBefore since) cs
    → window since (store_all [] table cs) ≡ window since (table ++ map row_of (submitted cs))
unfolding store_all store_call
window-store_all since table [] h = ap (window since) (sym (append-nil table))
window-store_all since table (inserts b ∷ cs) h =
    window-store_all since (insert succeeding table b).1 cs h.1
    ∙ ap (λ t. window since (t ++ map row_of (submitted cs))) (succeeding_lem table b)
    ∙ ap (window since) (
        append_assoc table (map row_of b) (map row_of (submitted cs))
        ∙ ap (λ l. table ++ l) (sym (map-append row_of b (submitted cs))))
window-store_all since table (deletes before ∷ cs) h =
    let rows = map row_of (submitted cs) in
    window-store_all since (purge none before table).1 cs h.1
    ∙ window-append since (purge none before table).1 rows
    ∙ ap (λ l. l ++ window since rows) (window-purge_rows before since table h.0)
    ∙ sym (window-append since table rows)

-- When a new writer that has not been closed yet is closed, after any events, the table holds, in
-- order, the rows of the batches whose Insert succeeded, but for those that a later Purge which
-- succeeded is of an instant after, whichever calls to the database fail. If none fails, a window
-- that starts no earlier than the retention before any purge, or any window if no retention is set,
-- holds the row of every record accepted whose time is in it, once each and in the order of
-- acceptance.
pub store_all-closes :
    (cfg : WriterConfig) (es : List Event) (ok : Bool) (answers : List Answer) (since : ℕ)
    → (run (new_writer cfg) es).running ≡ true
    → All (RetainsFrom since cfg) es
    → let log = (step (run (new_writer cfg) es) (closes ok)).log in
      (store_all answers [] log ≡ remaining answers log)
      × (window since (store_all [] [] log)
          ≡ window since (map row_of (accepted (new_writer cfg) es)))
store_all-closes cfg es ok answers since h k =
    let log = (step (run (new_writer cfg) es) (closes ok)).log in
    (
      store_all_lem answers [] log,
      window-store_all since [] log (closes-Purges since cfg es ok k)
          ∙ ap (λ l. window since (map row_of l)) (closes-run cfg es ok h),
    )
