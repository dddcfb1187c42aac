-- ===== src/Lib.antt =====
-- A verification library for the backend of this repository, a NestJS service over PostgreSQL
-- (by Prisma) and Redis.
--
-- Base holds the shared names: numbers, Boolean tests, lists and texts. A string that the code only
-- compares (an identifier, a token, a hash, an address) is a number, a string that it trims or
-- cuts is a list of code points, and a time is a number of milliseconds.
--
-- Prisma is the interface of the database client, a record of the queries that the services issue
-- on one table with the laws of their documented behaviour; Prisma.Tables fills it with lists.
-- What the database checks by itself is written where a row is created: the unique indexes of
-- prisma/schema.prisma by a test of two rows (`session_clash`), with the error code P2002.
--
-- Http is what a handler does: it runs on the state and ends with a value or an exception. What is
-- written before an exception stays written, except inside `transaction` (`$transaction`).
-- Http.Keeps carries a predicate on the state through a handler.
--
-- Schema is the data: the models and enums of prisma/schema.prisma, with the columns that the
-- services use, and `Backend`, all tables together with the part of Redis that holds playback
-- capabilities.
--
-- Audit is src/common/audit/audit.service.ts. Auth is src/auth/auth.service.ts: Auth.Login has
-- `register` and `login`, Auth.Refresh `refresh` and `logout`, Auth.Sessions `logoutAll`,
-- `sessions`, `revokeSession`, `changePassword` and, from src/common/auth/jwt.strategy.ts,
-- `JwtStrategy.validate`, Auth.Devices `registerDevice` and `revokeDevice`. Users is
-- src/users/users.service.ts. Auth.Refresh.Steps puts the operations of these services together as
-- a step relation, one step for each operation run to its end, so that a theorem can speak of
-- whatever happens between two requests.
--
-- Subscriptions is src/subscriptions/subscriptions.service.ts and Access, with Access.Grants,
-- src/access/access.service.ts: both answer whether a user may watch an episode at a time. Playback
-- is src/playback/playback-token.service.ts with what Redis keeps of a capability, Playback.Policy
-- is src/playback/playback-policy.service.ts, which asks Subscriptions, Access and the devices of
-- Auth, and Playback.Service is src/playback/playback.service.ts, which asks the policy:
-- Playback.Service.Capability has `validateCapability`, Playback.Service.Handlers `start` and the
-- rotation of a capability, Playback.Service.Running `resume`, `heartbeat`, `stop` and `status`.
-- Redis is taken to be reachable, an entry counts until its expiry, and the empty string is 0.
--
-- RateLimit is src/common/security/redis-rate-limit.guard.ts with `incrementWithExpiry` of
-- src/common/redis/redis.service.ts.
--
-- Uploads is src/uploads/uploads.service.ts, on a state of its own: the manifests in Redis, the staged
-- chunks and the audit trail. Uploads.Manifest has `init`, Uploads.Chunks `chunk`, Uploads.Finish
-- `complete`, `forward` and `cancel`; what they send to R2 or by `fetch` are fields of `Storage`, which
-- end with a value or an exception. Uploads.Steps puts the requests together as a step relation.
--
-- Support is src/support-chat/support-chat.service.ts: Support.Conversations has
-- `principalFromToken` and `ensureConversationForUser`, Support.Inbox the inbox, `stats` and
-- `updateStatus`, Support.Messages the messages. Support.Gateway is
-- src/support-chat/support-chat.gateway.ts, which calls the service and keeps the counts of online
-- users; its state is `Live`, the backend with the sockets, the counts, the rooms and what has been
-- emitted, and `Gateway`, which adds the connections that await their principal:
-- `connection_begins` and `connection_resumes` are `handleConnection` before and after its `await`.
-- Both parts have a step relation, Support.Steps and Support.Gateway.Reach.
--
-- LegacySql is the reader of scripts/legacy-migration/import-sql.ts: `parseValue`, `splitFields` and
-- `tuples` in LegacySql, `statementEnd`, `parseDump` and the look into a row in LegacySql.Dump. The
-- loops over indices are recursions over the characters that are left, so they end; the pattern
-- of `inserts` never needs to backtrack and is a chain of matchers.
--
-- Catalog is the four services of the catalog, every method that changes something: Catalog.Dramas is
-- src/dramas/dramas.service.ts, Catalog.Seasons src/seasons/seasons.service.ts, Catalog.Episodes
-- src/episodes/episodes.service.ts, Catalog.Media src/media-assets/media-assets.service.ts, and
-- Catalog itself has the queries that they share. Catalog.Episodes.Reach is the relation of the
-- requests that change episodes, Catalog.Rooted.Reach that of all requests. The unique indexes and
-- the audit entries come in the order of the code; who may call the methods is for the guards.
--
-- Migration is scripts/legacy-migration/migrate.ts: Migration has the state, the report and the
-- reading of a row and of the environment, Migration.Writes the single writes, Migration.Tables
-- `migrateUsers`, `migratePlans`, `migrateDramas`, `migrateSeasons` and `main`. `rows` reads a table up
-- to MIGRATION_MAX_ROWS (`max_rows`, a natural number here). The values that mysql2
-- returns are a type of their own with what `String` and `Number` make of them (`Source`). A
-- row's index is printed on fuel above the index.
--
-- A handler reads the clock once and takes its random values as arguments. The packages that it
-- calls (argon2, SHA-256, JWT signatures, Unicode lower case) are the fields of `Runtime` and, for
-- playback, of `Player`. No handler runs on fuel: each is a finite sequence of queries, and loops
-- go over a list.
--
-- Not modelled: validation of request bodies and access tokens by decorators and by passport,
-- logging, metrics, health checks, the pages that list rows outside the support chat,
-- the media gateway, the permission and role guards, the legacy service and what the import of the
-- old database does with the rows. At the gateway of the support chat, that a socket disconnects
-- while its principal is awaited is no step of Support.Gateway.Reach; other events may come between
-- the two halves of `handleConnection`, while `join`, `message` and `seen` are one step each.
pub mod Base
pub mod Prisma
pub mod Http
pub mod Schema
pub mod Audit
pub mod Auth
pub mod Users
pub mod Subscriptions
pub mod Access
pub mod Playback
pub mod RateLimit
pub mod Uploads
pub mod Support
pub mod LegacySql
pub mod Migration
pub mod Catalog
pub mod Tests
