-- ===== src/Api/Admin/Answer.antt =====
-- internal/api/usage.go: the answer of the usage query over the audit store.
use linkedin_api.Base.{
  ℕ, suc, ◌-◌, ◌≤◌, ◌<◌, ◌≡◌, refl, ap, arith, ◌⊎◌, inl, inr, Bool, true, false, ◌||◌, Option, none,
  [], ◌∷◌, some, Option-cases, Bool-cases, is_some, length, keep, not, is_nil, ◌==◌, Text, codes,
}
use linkedin_api.Base.Decimal.{atoi}
use linkedin_api.Base.Dict.{Dict}
use linkedin_api.Audit.Store.{Table, Row}
use linkedin_api.Audit.Query.{
  Failures, query_summary, summary, top_profiles, top_clients, top_upstream_clients, top_by, counts,
  window,
}
use linkedin_api.Audit.Query.Top.{top_by-Top}
use linkedin_api.Api.Http.{HttpRequest, Trace, usage_body, respond, perform_all, perform}
use linkedin_api.Api.Usage.{
  UsageResponse, parse_window, parse_limit, max_usage_window, max_usage_limit, parse_window-Bounds,
}
use linkedin_api.Api.Recorder.{write_json}
use linkedin_api.Api.Server.{Server, Platform, now, with_event}
use linkedin_api.Api.Middleware.{fail, respond-fail}
use linkedin_api.Api.Errors.{write_error, status_for}
use linkedin_api.Domain.Errors.{Err, structured, internal, cause, as_error}
use linkedin_api.Api.Admin.{store_querier, handle_usage}

length-counts : (m : Dict ℕ) → length (counts m) ≡ length m
length-counts [] = refl
length-counts (e ∷ m) = ap suc (length-counts m)

-- The answer over a table at an instant: all of it over one window that ends then.
pub record Answered (table : Table) (instant : ℕ) (u : UsageResponse) : Type 0 where
  pub limit : ℕ
  pub since : ℕ
  pub starts : since ≡ instant - u.window
  pub window : u.window ≤ max_usage_window
  pub positive : 0 < u.window
  pub total : u.summary ≡ summary since table
  pub profiles : u.top_profiles ≡ top_profiles since limit table
  pub clients : u.top_clients ≡ top_clients since limit table
  pub upstream : u.top_upstream_clients ≡ top_upstream_clients since limit table
  pub few_profiles : length u.top_profiles ≤ max_usage_limit
  pub few_clients : length u.top_clients ≤ max_usage_limit
  pub few_upstream : length u.top_upstream_clients ≤ max_usage_limit

few :
    (key : Row → Text) (limit : ℕ) (rows : Table)
    → limit ≤ max_usage_limit
    → length (counts (top_by key limit rows)) ≤ max_usage_limit
few key limit rows h =
    omega (arith, length-counts (top_by key limit rows), (top_by-Top key limit rows).bounded)

length-top_profiles :
    (since limit : ℕ) (table : Table)
    → limit ≤ max_usage_limit
    → length (top_profiles since limit table) ≤ max_usage_limit
unfolding top_profiles
length-top_profiles since limit table h =
    few (λ r. r.profile_id) limit (keep (λ r. not (is_nil r.profile_id)) (window since table)) h

length-top_clients :
    (since limit : ℕ) (table : Table)
    → limit ≤ max_usage_limit
    → length (top_clients since limit table) ≤ max_usage_limit
unfolding top_clients
length-top_clients since limit table h = few (λ r. r.client_ip) limit (window since table) h

length-top_upstream_clients :
    (since limit : ℕ) (table : Table)
    → limit ≤ max_usage_limit
    → length (top_upstream_clients since limit table) ≤ max_usage_limit
unfolding top_upstream_clients
length-top_upstream_clients since limit table h =
    few (λ r. r.client_ip) limit (keep (λ r. r.upstream_called == 1) (window since table)) h

-- Whether one of the queries fails.
abbrev pub any_failed : Failures → Bool
any_failed f =
    is_some f.scan
    || is_some f.percentile
    || is_some f.outcomes
    || is_some f.top_profiles
    || is_some f.top_clients
    || is_some f.top_upstream_clients

module _ {W L : Type 0} where
  -- The internal error, with nothing changed but the event.
  abbrev pub Failed : Server W L → Trace (Server W L) → Type 0
  Failed s t = ((respond t.ops).status ≡ some 500) × (with_event s.service.event t.after ≡ s)

  fail-Failed :
      (err : Err) (req : HttpRequest) (s : Server W L)
      → Failed s (fail (structured (internal (cause err))) req s)
  unfolding fail write_error as_error status_for
  fail-Failed err req s = ((respond-fail (structured (internal (cause err))) req s).0, refl)

module _ {W L : Type 0} (p : Platform W L) (table : W → Table) (failures : W → Failures)
    (parse_duration : Text → Option ℕ) (req : HttpRequest) (s : Server W L) where
  -- The handler's run.
  abbrev pub answer : Trace (Server W L)
  answer = handle_usage p (store_querier table failures parse_duration) req s

  -- An answer by 200.
  pub record Ok : Type 0 where
    pub response : UsageResponse
    pub status : (respond answer.ops).status ≡ some 200
    pub body : (respond answer.ops).body ≡ usage_body response ∷ []
    pub answered : Answered (table s.service.world) (now p s) response
    pub unchanged : answer.after ≡ s

  answer-Ok : any_failed (failures s.service.world) ≡ false → Ok
  unfolding handle_usage query_summary respond perform_all perform write_json
  answer-Ok n =
      let f = failures s.service.world in
      let given = parse_duration (req.query (codes "window")) in
      let asked = atoi (req.query (codes "limit")) in
      let span = parse_window given in
      let limit = parse_limit asked in
      let since = now p s - span in
      let rows = table s.service.world in
      let bounds = parse_window-Bounds given asked in
      let a : f.scan ≡ none = ground (arith, n) in
      let b : f.percentile ≡ none = ground (arith, n) in
      let c : f.outcomes ≡ none = ground (arith, n) in
      let d : f.top_profiles ≡ none = ground (arith, n) in
      let e : f.top_clients ≡ none = ground (arith, n) in
      let g : f.top_upstream_clients ≡ none = ground (arith, n) in
      record {
        response = record {
          window = span;
          summary = summary since rows;
          top_profiles = top_profiles since limit rows;
          top_clients = top_clients since limit rows;
          top_upstream_clients = top_upstream_clients since limit rows;
        };
        status = rw (a, b, c, d, e, g, handle_usage, query_summary) refl;
        body = rw (a, b, c, d, e, g, handle_usage, query_summary) refl;
        answered = record {
          limit = limit;
          since = since;
          starts = refl;
          window = bounds.1;
          positive = bounds.0;
          total = refl;
          profiles = refl;
          clients = refl;
          upstream = refl;
          few_profiles = length-top_profiles since limit rows bounds.3;
          few_clients = length-top_clients since limit rows bounds.3;
          few_upstream = length-top_upstream_clients since limit rows bounds.3;
        };
        unchanged = rw (a, b, c, d, e, g, handle_usage, query_summary) refl;
      }

  answer-Failed : any_failed (failures s.service.world) ≡ true → Failed s answer
  unfolding handle_usage query_summary
  answer-Failed n =
      let f = failures s.service.world in
      elim (Option-cases f.scan) [
        | inr (err, a) ↦ rw (a, handle_usage, query_summary) (fail-Failed err req s)
        | inl a ↦ elim (Option-cases f.percentile) [
          | inr (err, b) ↦ rw (a, b, handle_usage, query_summary) (fail-Failed err req s)
          | inl b ↦ elim (Option-cases f.outcomes) [
            | inr (err, c) ↦ rw (a, b, c, handle_usage, query_summary) (fail-Failed err req s)
            | inl c ↦ elim (Option-cases f.top_profiles) [
              | inr (err, d) ↦ rw (a, b, c, d, handle_usage, query_summary) (fail-Failed err req s)
              | inl d ↦ elim (Option-cases f.top_clients) [
                | inr (err, e) ↦
                    rw (a, b, c, d, e, handle_usage, query_summary) (fail-Failed err req s)
                | inl e ↦ elim (Option-cases f.top_upstream_clients) [
                  | inr (err, g) ↦
                      rw (a, b, c, d, e, g, handle_usage, query_summary) (fail-Failed err req s)
                  | inl g ↦ absurd (ground (arith, n, a, b, c, d, e, g))
                ]
              ]
            ]
          ]
        ]
      ]

  -- Over an audit table, a usage query is answered by 200 unless one of its queries fails, with the
  -- summary and the top lists of one positive window of at most 30 days that ends now, and no list
  -- longer than 100, whatever the query says; if one fails, by 500. Nothing but the event changes.
  pub handle_usage-Answered :
      ((any_failed (failures s.service.world) ≡ true) × Failed s answer)
      ⊎ ((any_failed (failures s.service.world) ≡ false) × Ok)
  handle_usage-Answered = elim (Bool-cases (any_failed (failures s.service.world))) [
    | inl h ↦ inl (h, answer-Failed h)
    | inr h ↦ inr (h, answer-Ok h)
  ]
