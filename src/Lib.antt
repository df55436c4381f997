-- ===== src/Lib.antt =====
-- SecureStore, a secrets manager for software agents (src/ of the repository, TypeScript over
-- PostgreSQL): agents store, find, reveal, rotate and revoke credentials through tools, and every
-- operation passes a visibility gate and a policy decision, runs in a transaction, and leaves an
-- audit entry and an event.
--
-- The parts and their modules:
--   * Policy models src/policy/ and the checks of src/services/policyService.ts: Policy.Types the
--     data, Policy.Matching when a policy applies, Policy.Sort the order by priority, Policy.Engine
--     `evaluatePolicy`, Policy.Service `checkPolicy` with the query of src/policy/repository.ts,
--     Policy.Approval the denials and approval requests.
--   * Credential models src/services/credentialService.ts: Credential.Types the rows,
--     Credential.Metadata the fields with provenance and their merge, Credential.Queries the SQL
--     statements, Credential.Text the texts of metadata values, Credential.Versions `insertVersion`, Credential.Store `storeCredential` and what it
--     calls, Credential.Search `findCredentials`, Credential.Lifecycle the operations from
--     `revealSecret` to `transferOwnership`.
--   * Tools models src/mcp/toolHandlers.ts, src/mcp/context.ts and src/mcp/registerTools.ts: Tools
--     itself the context, the errors and the two gates, Tools.Secrets, Tools.Changes,
--     Tools.Brokered and Tools.Oversight the handlers, Tools.Calls the table of the tools.
--     Tools.Extent and Credential.Extent say which rows of credentials they may change.
--   * Auth models src/auth/resolveAgent.ts, src/auth/mtls.ts and src/api/auth.ts, Crypto.Kms
--     src/crypto/kms.ts, Adapters src/adapters/registry.ts, and Session.Redis
--     src/services/redisProxySessionStore.ts.
--   * Audit models `queryAudit` of src/services/auditService.ts.
--   * Crypto models src/crypto/envelope.ts and src/crypto/fingerprint.ts.
--   * Visibility models src/services/visibilityService.ts, Agent and Agent.Registration
--     src/services/agentService.ts, RateLimit its in-memory limiter, Session the in-memory
--     store of src/services/proxySessionStore.ts, Events the reads of src/services/eventBus.ts, and
--     Sweep the expiry sweep of src/services/scheduledJobs.ts.
--   * Database has the tables as lists of rows, `withTransaction` of src/db/pool.ts, `recordAudit`
--     and `publish`. Common has the shared helpers.
--
-- How code and model correspond: a function has the name of the source in snake case. A function
-- that runs in a transaction is a `Tx`, from the tables to a result and the new tables;
-- `with_transaction` keeps the old tables on an error. An operation of Credential.Lifecycle is
-- the body that the source hands to `withTransaction`. A WHERE clause is a Boolean test, an UPDATE
-- is `update_where`, an INSERT appends after the test of its primary key and unique indexes. The
-- statements of a transaction see one state of the tables: concurrent transactions and locks are
-- not modelled, and of the foreign keys only the cascade of a deleted credential and the user of a
-- decision on an approval request are. What a call takes from outside (the clock, UUIDs, random
-- bytes) is an argument. A tool handler is an `Action` on a `World`, the tables and the proxy
-- sessions in memory, which keeps what was written before it throws. Provider adapters are an
-- interface (`Adapter`) with their answers as functions; lifetimes in seconds are not negative.
-- The ciphers of node:crypto and the key provider are the record `CryptoLib`, and `IsFaithful` is
-- what their documentation promises of them.
--
-- Numbers are natural numbers without a bound: times in milliseconds, UUIDs as numbers. Policy
-- priorities and the uses of a session are integers. All recursion is structural, so there is no
-- fuel. Confidences are in hundredths and the tokens of the limiter in 60000ths, where the source
-- has floating point.
--
-- Redis, AWS KMS, the TLS handshake and the verification of a JWT are parameters too; where a
-- theorem relies on them, a hypothesis states what their documentation promises (`IsRedis`,
-- `IsFaithful`).
--
-- Not modelled: secret_store_detected and the detectors and ingestion behind it, the OAuth tools
-- and flows, the routes and the MCP transports, the implementations of the provider adapters, the
-- revalidation of health, the Redis rate limiter and the creation of organizations, workspaces and
-- users; most of these are input and output or calls of other services.
pub mod Adapters
pub mod Agent
pub mod Audit
pub mod Auth
pub mod Common
pub mod Credential
pub mod Crypto
pub mod Database
pub mod Events
pub mod Policy
pub mod RateLimit
pub mod Session
pub mod Sweep
pub mod Tools
pub mod Visibility
