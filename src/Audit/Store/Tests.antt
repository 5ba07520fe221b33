-- ===== src/Audit/Store/Tests.antt =====
-- A small audit table, and a writer's batches that go to it.
use linkedin_api.Base.{
  ℕ, ◌≡◌, refl, true, none, some, List, [], ◌∷◌, map, arith, Text, codes, text_eq,
}
use linkedin_api.Audit.Tests.{config, busy, entry}
use linkedin_api.Audit.Writer
use linkedin_api.Audit.Writer.{new_writer, run, step, accepted}
use linkedin_api.Audit.Store.{Row, Table, insert, purge, row_of}
use linkedin_api.Audit.Query.{window, latencies, percentile, top_by}
use linkedin_api.Audit.Query.Purged.{Unpurged, purge-Unpurged}
use linkedin_api.Audit.Query.Percentile.{IsP95, percentile-IsP95}
use linkedin_api.Audit.Query.Top.{Top, top_by-Top}
use linkedin_api.Audit.Store.Stored.{
  Answer, success, store_all, store_call, remaining, store_all-closes,
}
use linkedin_api.Audit.Schema
use linkedin_api.Audit.Schema.{Complete, added_columns, open_table, open_table-Complete}
use linkedin_api.Domain.Errors.{plain}

abbrev row : ℕ → ℕ → Text → Row
row ts latency client = record {
  ts = ts;
  request_id = [];
  client_ip = client;
  key_id = [];
  profile_id = [];
  credential_mode = [];
  cred_fp = [];
  status = 200;
  rate_decision = codes "allowed";
  cached = 0;
  upstream_called = 1;
  upstream_outcome = [];
  retries = 0;
  latency_ms = latency;
  error_class = [];
}

abbrev rows : Table
rows = row 1 9 (codes "a") ∷ row 2 5 (codes "b") ∷ row 3 7 (codes "b") ∷ []

purge-Unpurged_example : Unpurged 2_000_000 5 rows (purge none 2_000_000 rows).1
purge-Unpurged_example = purge-Unpurged none 2_000_000 2_000_000 5 rows (omega arith)

percentile_run : percentile 0 rows 95 ≡ 9
unfolding percentile
percentile_run = refl

percentile-IsP95_example : IsP95 (latencies (window 0 rows)) (percentile 0 rows 95)
unfolding window
percentile-IsP95_example = percentile-IsP95 0 rows (omega arith)

top_by_run : top_by (λ r. r.client_ip) 1 rows ≡ (codes "b", 2) ∷ []
unfolding top_by text_eq
top_by_run = refl

top_by-Top_example : Top (λ r. r.client_ip) 1 rows (top_by (λ r. r.client_ip) 1 rows)
top_by-Top_example = top_by-Top (λ r. r.client_ip) 1 rows

-- The first purge succeeds, and the first batch does not begin.
abbrev locked : List Answer
locked =
    success
    ∷ record {
      calls = record {
        begin = some (plain (codes "database is locked"));
        prepare = none;
        execs = [];
        commit = none;
      };
      purged = none;
    }
    ∷ []

store_all-closes_example :
    let log = (step (run (new_writer config) busy) (Writer.closes true)).log in
    (store_all locked [] log ≡ remaining locked log)
    × (window 50 (store_all [] [] log) ≡ window 50 (map row_of (accepted (new_writer config) busy)))
unfolding run new_writer
store_all-closes_example =
    store_all-closes config busy true locked 50 refl
      (λ e. omega arith, (tt, (tt, (tt, (tt, (tt, tt))))))

-- A purge after a batch deletes the older of its rows.
abbrev purged_log : List Writer.StoreCall
purged_log = Writer.inserts (entry 5_000_000 ∷ entry 9_000_000 ∷ []) ∷ Writer.deletes 7_000_000 ∷ []

store_all_run : store_all [] [] purged_log ≡ row_of (entry 9_000_000) ∷ []
unfolding store_all store_call insert purge row_of
store_all_run = refl

abbrev answered : Schema.Calls
answered = record { apply = none; read = none; alter = λ name. none }

-- A table of an earlier version.
open_table-Complete_example :
    Complete added_columns
      (some (codes "id" ∷ []))
      (open_table answered added_columns (some (codes "id" ∷ []))).1
unfolding open_table text_eq
open_table-Complete_example =
    open_table-Complete answered added_columns (some (codes "id" ∷ [])) refl
