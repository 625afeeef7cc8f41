-- ===== src/Lib.antt =====
-- BankOS: the identity service and the gateway.
--
-- services/identity/src is a service for accounts: registration, login, sessions with refresh tokens,
-- password recovery, e-mail verification, and roles with permissions. Its controllers call services,
-- which call repositories over Prisma, the token service, the password hasher and the dispatcher of
-- domain events, whose one handler writes the audit log. services/gateway/src stands before it and the
-- other services: it removes identity headers, authenticates requests and proxies them with retries.
--
-- Prelude: tests, lists and results that all parts share. Text: the methods of JavaScript strings.
-- Domain: core/domain, core/events and core/errors; a method that mutates an entity is a function to the
--   new entity, and one that throws gives a Result.
-- Database: the rows of prisma/schema.prisma, infrastructure/database/mapper.ts (Mapper), and what the
--   Prisma client promises (Delegate): its methods are parameters on lists of rows, with laws for
--   them; Memory is a client that keeps the laws.
-- Runtime: the packages (jsonwebtoken, argon2, ioredis, node crypto, the clock) as parameters, the
--   World that the services change, and actions: functions from a World to a result and the World
--   after it. What was written before a throw stays written, since no service has a transaction.
-- Repository: modules/auth/repositories; RoundTrip is about storing and finding.
-- Crypto: infrastructure/crypto.
-- Cache: infrastructure/redis/RedisTokenBlacklistService.ts, RedisRateLimitService.ts (RateLimit) and
--   RedisCacheService.ts (Values); Laws says what the server promises, and Memory keeps it.
-- Events: infrastructure/events, the dispatcher, the audit handler and the metrics handler (Metrics).
-- Validator: modules/auth/validators/EmailValidator.ts and PasswordPolicy.ts.
-- Engine: modules/auth/engine. Service: modules/auth/services; `execute` of each service has the name of
--   what it does, and the code after a branch is a function of its own.
-- Controller: modules/auth/controllers and middleware, middlewares, and app.ts with
--   health/health.controller.ts (App). Http and Gateway: services/gateway/src/middlewares.
-- Gateway/App, Gateway/Proxy and Gateway/Correlation: app.ts, routes/proxy.ts, health/health.routes.ts,
--   middlewares/rateLimit.ts and middlewares/correlationId.ts of the gateway: the way of a request through
--   the middlewares in their order, to an answer or to a proxy.
-- Lifecycle: modules/auth/routes/auth.routes.ts (Requests), the requests of the authentication routes one
--   after the other, and the life of the sessions as a step relation (Spec). Quiet and Lawful say what
--   an action may do to the sessions and how this composes; Parts, Accounts, Registrations, Rotations,
--   Logouts and Recoveries say it of the services.
-- Tests: concrete packages, a concrete state, and the theorems applied there.
--
-- The one recursion with fuel is that of `collectRoles` along the parents of a role: the fuel is one more
-- than the number of roles, which is enough since each call but the last adds a new role. Numbers
-- are natural numbers; times are milliseconds. Passwords, hashes and tokens are texts. RETRY_COUNT of the
-- gateway is read without a test: it is an Option, none where it is negative or NaN.
--
-- Not modelled: the start of both services, the construction of their parts, zod schemas, logging, the
-- metrics of requests, tracing, mail transport, and the circuit breaker, which is a parameter of the
-- retries. The rows have no createdAt and updatedAt of users and no updatedAt of sessions: the mapper sets
-- them to the time of its call, but no repository writes them. Two requests do not interleave: an action
-- runs to its end.
pub mod Cache
pub mod Config
pub mod Controller
pub mod Crypto
pub mod Database
pub mod Domain
pub mod Engine
pub mod Events
pub mod Gateway
pub mod Http
pub mod Lifecycle
pub mod Prelude
pub mod Repository
pub mod Runtime
pub mod Service
pub mod Tests
pub mod Text
pub mod Validator
