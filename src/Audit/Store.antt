-- ===== src/Audit/Store.antt =====
-- internal/audit/sqlite.go. The table is the list of its rows in the order of their ids. A statement of
-- SQL that the file holds is the function on rows that it asks for; whether a call of database/sql
-- fails is an argument. A row's instant and latency are in milliseconds.
pub mod Insert
pub mod Stored
pub mod Tests
use linkedin_api.Base.{
  ℕ, ◌-◌, ◌/◌, ◌⊎◌, inl, inr, Bool, not, Option, none, some, List, [], ◌∷◌, ◌++◌, ltb,
  if◌then◌else◌, length, is_nil, keep, Text,
}
use linkedin_api.Domain.Errors.{Err}
use linkedin_api.Audit.Event.{Record}

pub record Row : Type 0 where
  pub ts : ℕ
  pub request_id : Text
  pub client_ip : Text
  pub key_id : Text
  pub profile_id : Text
  pub credential_mode : Text
  pub cred_fp : Text
  pub status : ℕ
  pub rate_decision : Text
  pub cached : ℕ
  pub upstream_called : ℕ
  pub upstream_outcome : Text
  pub retries : ℕ
  pub latency_ms : ℕ
  pub error_class : Text

abbrev pub Table : Type 0
Table = List Row

abbrev pub bool_to_int : Bool → ℕ
bool_to_int b = if b then 1 else 0

-- time.Time.UnixMilli and time.Duration.Milliseconds
abbrev pub milliseconds : ℕ → ℕ
milliseconds ns = ns / 1_000_000

-- The arguments of insertSQL. A record's sections are not stored.
unfoldable pub row_of : Record → Row
row_of r = record {
  ts = milliseconds r.time;
  request_id = r.request_id;
  client_ip = r.client_ip;
  key_id = r.key_id;
  profile_id = r.profile_id;
  credential_mode = r.credential_mode;
  cred_fp = r.cred_fp;
  status = r.status;
  rate_decision = r.rate_decision;
  cached = bool_to_int r.cached;
  upstream_called = bool_to_int r.upstream_called;
  upstream_outcome = r.upstream_outcome;
  retries = r.retries;
  latency_ms = milliseconds r.latency;
  error_class = r.error_class;
}

-- Which calls of one Insert fail: the n-th entry of `execs` is the answer to the n-th ExecContext, and
-- those past the end succeed.
pub record Calls : Type 0 where
  pub begin : Option Err
  pub prepare : Option Err
  pub execs : List (Option Err)
  pub commit : Option Err

-- The loop of Insert: the rows that the transaction holds after it, or the error that ends it.
unfoldable pub exec_all : List (Option Err) → List Row → List Record → Option Err × List Row
exec_all answers rows [] = (none, rows)
exec_all [] rows (r ∷ batch) = exec_all [] (rows ++ (row_of r ∷ [])) batch
exec_all (none ∷ answers) rows (r ∷ batch) = exec_all answers (rows ++ (row_of r ∷ [])) batch
exec_all (some err ∷ answers) rows (r ∷ batch) = (some err, rows)

-- Insert. A transaction that is rolled back, or whose commit fails, leaves the table as it was.
unfoldable pub insert : Calls → Table → List Record → Option Err × Table
unfolding exec_all
insert c table batch =
    let (failed, rows) = exec_all c.execs [] batch in
    if is_nil batch then (none, table) else elim c.begin [
      | some err ↦ (some err, table)
      | none ↦ elim c.prepare [
        | some err ↦ (some err, table)
        | none ↦ elim failed [
          | some err ↦ (some err, table)
          | none ↦ elim c.commit [ some err ↦ (some err, table) | none ↦ (none, table ++ rows) ]
        ]
      ]
    ]

-- Purge, which fails or not: how many rows it deleted, and the table without them. `before` is an instant
-- in nanoseconds.
unfoldable pub purge : Option Err → ℕ → Table → (Err ⊎ ℕ) × Table
purge (some err) before table = (inl err, table)
purge none before table =
    let left = keep (λ r. not (ltb r.ts (milliseconds before))) table in
    (inr (length table - length left), left)
