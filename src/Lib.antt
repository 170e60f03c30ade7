-- ===== src/Lib.antt =====
-- Verification of the secure API gateway, a Zero Trust reverse proxy (gateway/app).
--
-- A request to the gateway is authenticated by its token, limited by a token bucket in Redis,
-- authorized by the permissions that PostgreSQL holds, and forwarded to an upstream service by an
-- executor that retries and that a circuit breaker guards. Logins are limited by address and locked
-- by account. Security events are audited on the way.
--
-- Prelude: tests on numbers, lists, texts as code points, dictionaries as association lists, sorted
--   lists of texts, and the numerals that `int` reads.
-- Circuit: class ServiceCircuitBreaker of gateway/app/proxy/resilience.py. Its state is the record
--   Circuit; before_request, record_success, record_failure, record_neutral and snapshot are the
--   methods of those names, each one step from a state to a state since it runs under the lock.
--   Invariant, Interleaving, RetryAfter and Streak prove; Registry models CircuitBreakerRegistry.
-- Executor: class ResilientUpstreamExecutor of gateway/app/proxy/executor.py. The answers of the
--   upstream, the clock, cancellation and what other tasks do to the breaker are an Environment. The
--   retry loop recurs on the attempts that are left, so it needs no fuel. Executor.Classify has the
--   functions of resilience.py that classify methods, errors and responses.
-- Proxy: Proxy.Route has proxy_request of gateway/app/proxy/router.py, which composes the rate limit,
--   the authorization, the registry of services and the executor; Route.Forwarding and Route.Guards
--   prove. Proxy.Headers has the filters of headers.py, Proxy.Settings the settings of resilience.py
--   with their reading from the environment, Proxy.Url the base URLs of registry.py.
-- Redis: the interface of the Redis commands that the login protection uses, whose laws are their
--   documented behaviour; Redis.Memory is a store that meets them. The token bucket uses it too.
-- Http: the exceptions that handlers tell apart, HTTPException, and actions that change a state and
--   may raise.
-- Login: lock_status, record_failure and reset are the Lua scripts of
--   gateway/app/rate_limit/login_scripts.py. Login.Client is class RedisLoginProtection of
--   gateway/app/rate_limit/login.py. Login.Account is the abstract account that Login.Scripts shows
--   the scripts to implement, Login.Failure and Attack follow one under repeated failures as time passes, and
--   Login.Client.Decisions proves what the client decides.
-- Audit: the events of gateway/app/audit/models.py, and their recording by service.py and
--   dependencies.py there. A Trail has the log, the rows of the database and how it will answer.
--   Audit.Recording and Audit.Trusted prove.
-- World: the state that a request handler changes, a record with a part for each dependency, and
--   actions on one part. The services behind the dependencies keep a state of any type.
-- RateLimit: the decision of gateway/app/rate_limit/models.py. RateLimit.Dependencies has
--   enforce_login_ip_rate_limit and enforce_proxy_rate_limit; what they share is `enforce`.
--   RateLimit.Enforcement proves. RateLimit.Bucket has the Lua script of scripts.py there and the
--   policies; Bucket.Level is the abstract bucket that Bucket.Scripts shows the script to implement,
--   Bucket.Limiter is class RedisRateLimiter of service.py, Bucket.Aging follows a bucket while time
--   passes in Redis, where its key expires apart from the clock of the gateway, and Bucket.Admitted
--   and Retry prove how many requests it admits and when one that it refused.
--   RateLimit.Config has the settings of Redis of config.py there.
-- Auth: Auth.Router has the handlers register_user and issue_access_token of
--   gateway/app/auth/router.py, over an interface of the authentication service. Auth.Token
--   describes its steps, Auth.Verdict its answers, Auth.Granting when it gives out a token, and
--   Auth.Locked what it answers for a locked account.
-- Auth.Tokens: create_access_token and decode_access_token of gateway/app/auth/tokens.py, over an
--   interface of PyJWT; Auth.Tokens.Roundtrip proves.
-- Auth.Service: AuthenticationService of gateway/app/auth/service.py over an interface of the
--   repository of users and of Argon2, with passwords.py; Auth.Service.Credentials proves. It fills
--   the interface that the routes use.
-- Auth.Users: normalize_username of gateway/app/auth/models.py and InMemoryUserRepository of
--   repository.py there, which fills the interface of the service; Auth.Users.Registration proves.
-- Auth.CurrentUser: get_current_user of gateway/app/auth/dependencies.py, and what it proves.
-- Auth.Config: load_auth_settings of gateway/app/auth/config.py.
-- Authorization: resolve_proxy_permission, enforce_proxy_authorization and require_permission of
--   gateway/app/authorization/dependencies.py, has_permission and require_permission of service.py
--   and normalize_permission_code of models.py there. Authorization.Enforcement proves what a
--   request that passes has, Authorization.Answers what a request is answered.
--   Authorization.RoleNames has normalize_role_name, Authorization.Roles the handlers of router.py
--   there that list, assign and remove the roles of a user; Roles.Changes, Handlers and Reading prove.
-- Database: a session of SQLAlchemy on PostgreSQL, with a transaction and faults that may come before
--   or after a statement took effect, as an interface; Database.Memory has tables that meet its laws.
--   Database.Roles is class PostgreSQLAuthorizationRepository of
--   gateway/app/database/authorization_repository.py; Sessions and the children of Roles prove.
--   Database.Users is class PostgreSQLUserRepository of user_repository.py there, over the same
--   sessions; its children Creation, Created and Registered prove, and it fills the interface that
--   the authentication service uses. Database.Events is class PostgreSQLAuditRepository of
--   audit_repository.py there.
-- Fixtures: requests and states for the tests.
--
-- Times of the breaker are whole nanoseconds where the source has floats of seconds, so comparisons
-- and sums are exact; the rounding of floats is not modelled. Case mapping of HTTP methods is that
-- of ASCII, and of header names that of Latin-1.
-- The numbers of the scripts are exact, as they are in Redis below 10 ^ 14, and the tokens of a bucket
-- are fractions written in whole units; Unicode normalization and SHA-256 are parameters, and so are
-- `float`, `urlsplit`, `str.isdigit` and the reading of a UUID from a text. Identifiers and times of events and users
-- are left out where nothing reads them. An exception is a value that says its class, as far as some
-- handler names it.
--
-- Not modelled: the JSON of the logs, the Prometheus metrics but for those that are counted in the
-- state, the configuration of PostgreSQL and of the policies for limits, the middleware that gives requests their identifiers, the
-- migrations, the upstream services, the tools, and the startup with its probes of readiness.
--
-- A request is trusted when the middleware gave it an identifier that is a UUID and its method has up
-- to 16 characters without outer white space. The audit repository keeps its contract when it raises
-- no exception but AuditRepositoryBackendError.
pub mod Prelude
pub mod Circuit
pub mod Executor
pub mod Proxy
pub mod Redis
pub mod Http
pub mod Login
pub mod Audit
pub mod World
pub mod RateLimit
pub mod Auth
pub mod Authorization
pub mod Database
pub mod Fixtures
