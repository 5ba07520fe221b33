-- ===== src/Api/Admin.antt =====
-- internal/api/usage.go and health_handler.go: the usage query and the health probes. The read side of
-- the audit store is a `Querier`; time.ParseDuration is its field `parse_duration`.
pub mod Answer
use linkedin_api.Base.{
  ℕ, ◌-◌, ◌⊎◌, inl, inr, Bool, true, Option, none, some, List, if◌then◌else◌, Text, codes,
}
use linkedin_api.Base.Decimal.{atoi}
use linkedin_api.Domain.Errors.{Err, structured, internal, cause}
use linkedin_api.Audit.Report.{Summary, Count}
use linkedin_api.Audit.Store.{Table}
use linkedin_api.Audit.Query.{
  Failures, unless, query_summary, top_profiles, top_clients, top_upstream_clients,
}
use linkedin_api.Api.Http.{HttpRequest, Handler, usage_body, status_body}
use linkedin_api.Api.Usage.{UsageResponse, parse_window, parse_limit}
use linkedin_api.Api.Recorder.{write_json}
use linkedin_api.Api.Server.{Server, Platform, now}
use linkedin_api.Api.Middleware.{fail}

-- UsageQuerier. The queries read the world.
pub record Querier (W : Type 0) : Type 0 where
  pub summary : W → ℕ → Err ⊎ Summary
  pub top_profiles : W → ℕ → ℕ → Err ⊎ List Count
  pub top_clients : W → ℕ → ℕ → Err ⊎ List Count
  pub top_upstream_clients : W → ℕ → ℕ → Err ⊎ List Count
  pub parse_duration : Text → Option ℕ

-- The queries on a table that the world holds, with the failures that it holds for them.
abbrev pub store_querier :
    {W : Type 0} → (W → Table) → (W → Failures) → (Text → Option ℕ) → Querier W
store_querier table failures parse_duration = record {
  summary = λ w since. query_summary (failures w) since (table w);
  top_profiles =
      λ w since limit. unless (failures w).top_profiles (top_profiles since limit (table w));
  top_clients =
      λ w since limit. unless (failures w).top_clients (top_clients since limit (table w));
  top_upstream_clients = λ w since limit.
      unless (failures w).top_upstream_clients (top_upstream_clients since limit (table w));
  parse_duration = parse_duration;
}

module _ {W L : Type 0} where
  -- (*usageHandler).handle
  unfoldable pub handle_usage : Platform W L → Querier W → Handler (Server W L)
  unfolding parse_window parse_limit atoi fail write_json
  handle_usage p q req s =
      let span = parse_window (q.parse_duration (req.query (codes "window"))) in
      let limit = parse_limit (atoi (req.query (codes "limit"))) in
      let since = now p s - span in
      let w = s.service.world in
      let failed = λ (err : Err). fail (structured (internal (cause err))) req s in
      elim (q.summary w since) [
        | inl err ↦ failed err
        | inr total ↦ elim (q.top_profiles w since limit) [
          | inl err ↦ failed err
          | inr profiles ↦ elim (q.top_clients w since limit) [
            | inl err ↦ failed err
            | inr clients ↦ elim (q.top_upstream_clients w since limit) [
              | inl err ↦ failed err
              | inr upstream ↦ record {
                ops = write_json 200 (
                    usage_body (record {
                      window = span;
                      summary = total;
                      top_profiles = profiles;
                      top_clients = clients;
                      top_upstream_clients = upstream;
                    }));
                returned = true;
                after = s;
              }
            ]
          ]
        ]
      ]

  -- (*healthHandler).live
  unfoldable pub live : Handler (Server W L)
  unfolding write_json
  live req s = record {
    ops = write_json 200 (status_body (codes "ok"));
    returned = true;
    after = s;
  }

  -- (*healthHandler).readyz; `ready` is none for a nil function.
  unfoldable pub readyz : Option (W → Bool) → Handler (Server W L)
  unfolding write_json
  readyz ready req s =
      let is_ready : Bool = elim ready [ none ↦ true | some f ↦ f s.service.world ] in
      record {
        ops =
            if is_ready
            then write_json 200 (status_body (codes "ready"))
            else write_json 503 (status_body (codes "not_ready"));
        returned = true;
        after = s;
      }
