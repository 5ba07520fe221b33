-- ===== src/Lib.antt =====
-- linkedin-api: an HTTP service that returns normalized LinkedIn profiles.
--
-- A request reaches the API layer (internal/api), which finds the client's address, applies a token
-- bucket per address, validates the profile URL (internal/urlx) and an optional session of the
-- caller's, and asks the profile service (internal/service). A server-session request goes through
-- the result cache and the negative cache (internal/cache) and is coalesced with others for the same
-- profile; a caller-session request shares none of these, and a session that LinkedIn rejected is
-- remembered by its fingerprint. Either passes the upstream guard (internal/upstream), which holds
-- two circuit breakers, a rate limiter and a bound on concurrent calls, and then the client
-- (internal/linkedin), which retries transient failures. The answers are normalized by
-- internal/linkedin/parse, and each request leaves a record with the audit writer (internal/audit).
--
-- Which module models which part:
--   Base         Go's strings, maps, durations and decimal numbers; Base.Expiry is the bounded map of
--                instants that the negative cache and the caller health tracker have in common;
--                Base.Attr is the attributes of log/slog
--   Domain       internal/domain: Errors (codes, constructors, AsError), Profile, CredentialMode
--   Urlx         internal/urlx/profile_url.go: Parse is `parse`, IsLinkedInHost `is_linkedin_host`
--   Audit        internal/audit: Event is record.go, Writer is writer.go, whose select loop is a
--                sequence of events; Sections and Log are log.go; Schema (Open), Store (Insert and
--                Purge), Query and Report are sqlite.go, and Store.Stored puts the table behind the
--                writer
--   Upstream     internal/upstream/guard.go: SubBreaker is subBreaker, Breaker is breaker
--                (blocked, record, sync), Guard is Enter, release and reject
--   Cache        internal/cache: Ttl is TTLCache, Negative is NegativeTTL
--   Linkedin     internal/linkedin: Credential is credential.go and session.go, Status errors.go,
--                Client the attempt and the retry loop of client.go, Headers its NewClient, setHeaders
--                and logRequest, Endpoints endpoints.go and the two fetches, Parse the directory parse
--                (Image is raw.go; Links, Json, Decode and Sections are sections.go; TopCard is
--                profile.go)
--   Service      internal/service: CallerHealth is callerhealth.go; State, Retrieval and Profile are
--                profile.go; Profile.Guarded puts the guard of Upstream behind it as
--                cmd/server/main.go does, and Profile.Shut says what a lost probe does to it
--   Api          internal/api: RateLimit is ratelimit.go; ClientIp is clientIP; Credential is
--                credential.go and the keys of apikey.go; Errors statusFor and writeError; Handler the
--                profile handler; Http what the handlers use of net/http; Recorder response.go; Server
--                what the handlers share; Middleware the layers of middleware.go, requestid.go,
--                audit.go, ratelimit.go and apikey.go; Image image_handler.go; Usage and Admin usage.go
--                and health_handler.go; Router router.go
--   Config       internal/config/config.go: the configuration and Validate; Env is the readers of the
--                environment, Load is Load, Secrets is LogValue
--   Observability  internal/observability: the registered collectors, the logger's level and format
--   Startup      cmd/server/main.go: profileSections; Wiring is what run builds, Run its course
-- A Go name in camel case is the same name in snake case here, except where that word is taken
-- (`record_result` for record, `is_open` for open, `get_result` for Get).
--
-- How the program's values are modelled:
--   - A string is a list of bytes. TrimSpace and ToLower are those of ASCII.
--   - A map is an association list, whose order stands for the order of a range, which Go leaves open;
--     where a range takes its first entry, the argument `pick` says which one that is.
--   - An instant is a number of nanoseconds, and every reading of the clock is an argument or comes
--     from the world; a time.Duration is its 64-bit pattern, with wrap-around written out. The
--     seconds of a Retry-After are computed on integers where Go takes a float's ceiling.
--   - A nil pointer is `none`; a nil slice and an empty one are the same list; an error value is an
--     `Err`, in which structured errors and chains are told apart.
--   - A handler is a function from a request and the server's state to a trace: the calls on its
--     response writer in their order, whether it returns or panics, and the state after. What net/http
--     sends for the calls is `respond`. A response body is the value that is encoded, not its bytes.
--   - The audit table is the list of its rows; a statement of SQL is the function on rows that it asks
--     for, and where SQL leaves the order of equal counts open, the order is that of the groups.
--   - A method that holds a lock for its whole body is one step. Where a method locks twice, as
--     TTLCache.Get does, it is two. Goroutines are sequences of such steps in any order.
-- Parameters stand for what the source calls and does not contain: a token bucket of
-- golang.org/x/time/rate is a function of its state and the instant; a singleflight call either leads
-- or joins another; encoding/json, html, url.Parse, url.PathUnescape, the slug's Unicode pattern, the
-- verb %q and HMAC-SHA256 are functions. What LinkedIn and the network do is a world with
-- operations on it (`Outside` for the service, `Network` for the client, `Images` for the image proxy);
-- properties that speak of requests or permits ask for a count on that world that the operations move as
-- documented. time.ParseDuration, strconv.ParseFloat, mime.ParseMediaType, the mux's path cleaning, the
-- handler of the Prometheus registry and the file server of the web interface are parameters too, and so
-- is which call of database/sql fails.
--
-- The loops run by recursion on their lists, except the retry loop, whose condition is a counter: it
-- has MaxRetries + 1 units of fuel, one for each attempt, and `get_target-Bounded` says that it
-- answers. A loop of select is a list of events.
--
-- Not modelled: deadlines and cancellation beyond the answers of the world; the bytes of JSON; the help
-- texts and buckets of metrics; the rates of the token buckets, of which Validate only asks whether they
-- are positive; the path of the audit database (auditDBPath in cmd/server/main.go); the transport that
-- NewClient sets up. The web interface and the deployment files are not Go code.
pub mod Base
pub mod Domain
pub mod Urlx
pub mod Audit
pub mod Upstream
pub mod Cache
pub mod Linkedin
pub mod Service
pub mod Api
pub mod Config
pub mod Observability
pub mod Startup
