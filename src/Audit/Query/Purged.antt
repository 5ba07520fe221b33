-- ===== src/Audit/Query/Purged.antt =====
-- internal/audit/sqlite.go: what Purge does to the answers of the queries.
use linkedin_api.Base.{ℕ, ◌≤◌, ◌≡◌, refl, Option, none, some, [], ◌∷◌, arith}
use linkedin_api.Domain.Errors.{Err}
use linkedin_api.Audit.Store.{Table, purge, milliseconds}
use linkedin_api.Audit.Query.{
  window, summary, percentile, top_profiles, top_clients, top_upstream_clients,
}

milliseconds_mono : (a b : ℕ) → a ≤ b → milliseconds a ≤ milliseconds b
milliseconds_mono a b h = omega arith

pub window-purge_rows :
    (before since : ℕ) (table : Table)
    → before ≤ since
    → window since (purge none before table).1 ≡ window since table
unfolding window purge
window-purge_rows before since [] h = refl
window-purge_rows before since (r ∷ rows) h =
    ground (arith, milliseconds_mono before since h, window-purge_rows before since rows h)

percentile-purge :
    (before since k : ℕ) (table : Table)
    → before ≤ since
    → percentile since (purge none before table).1 k ≡ percentile since table k
unfolding percentile
percentile-purge before since k table h =
    rw (window-purge_rows before since table h, percentile) refl

-- The queries over a window that starts no earlier than the instant of a purge.
pub record Unpurged (since limit : ℕ) (table purged : Table) : Type 0 where
  pub summary : summary since purged ≡ summary since table
  pub profiles : top_profiles since limit purged ≡ top_profiles since limit table
  pub clients : top_clients since limit purged ≡ top_clients since limit table
  pub upstream : top_upstream_clients since limit purged ≡ top_upstream_clients since limit table

-- A purge changes no answer of the usage queries over a window that starts no earlier than the
-- instant of the purge.
pub purge-Unpurged :
    (failed : Option Err) (before since limit : ℕ) (table : Table)
    → before ≤ since
    → Unpurged since limit table (purge failed before table).1
unfolding summary top_profiles top_clients top_upstream_clients purge
purge-Unpurged (some err) before since limit table h = record {
  summary = refl;
  profiles = refl;
  clients = refl;
  upstream = refl;
}
purge-Unpurged none before since limit table h =
    let e = window-purge_rows before since table h in
    record {
      summary = rw (e, percentile-purge before since 95 table h) refl;
      profiles = rw e refl;
      clients = rw e refl;
      upstream = rw e refl;
    }
