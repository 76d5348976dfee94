-- ===== src/Lib.antt =====
-- The Infopunks trust layer for agentic markets: what its adapter promises about payments, locks,
-- idempotent requests, entitlements, subjects, rate limits and fallbacks, what its trust engine promises
-- about policies and events, and what the platform of its API promises about passports, webhooks and
-- quotas.
--
-- The program. An adapter (services/mcp-adapter/src) sells calls of trust tools. A call of a tool
-- (executeTool of services/mcp-adapter/src/transport/mcp-server.mjs) claims its idempotency key, is
-- limited, is authorised and paid (authorizeAndBill of
-- services/mcp-adapter/src/payments/entitlements.mjs), goes to its handler and stores its result under
-- the key. A payment is checked for replay, and its units are billed in one transaction of the
-- state store (services/mcp-adapter/src/storage/state-store.mjs), which holds all of the adapter's
-- tables. A reconciliation service (services/mcp-adapter/src/payments/reconciliation-service.mjs)
-- settles or reverses the receipts afterwards, from events that it is sent and in runs of its own
-- under a lock. A guard (services/mcp-adapter/src/payments/request-guard-store.mjs) keeps a request
-- from being carried out twice under one idempotency key. Entitlement tokens
-- (services/mcp-adapter/src/security/entitlement-token.mjs) open sessions, and rate limits
-- (services/mcp-adapter/src/middleware) bound the calls of a key in a minute. The answers come from
-- an upstream service, with a cache to fall back on. The subjects of a call are looked up, or created
-- under a lock, by services/mcp-adapter/src/identity. The trust engine
-- (packages/trust-engine/index.mjs) turns the evidence about a subject into a state, a policy and
-- events. Behind the API stands the platform (apps/api/lib/platform.mjs), which keeps the passports of
-- subjects and the evidence about them, delivers events to webhooks and limits the calls of a key.
--
-- The files.
--   Base and its children: lists as database tables, text as JavaScript treats it, JSON values, and
--     the relations between two states of a table that the components share.
--   Storage: the tables of state-store.mjs. Tables has the rows and unique indexes of replay_nonces
--     and payment_receipts; Replay is buildPaymentFingerprint and assertNotReplay; Receipts is the
--     look-ups, spendByDay, listUnsettledReceipts and updateReceiptMetadata; Reserve is
--     reservePaidOperation and createProvisionalReceipt; Settlement is updateReceiptSettlement;
--     Locks is acquireLock, renewLock and releaseLock, with Terms on one call and Exclusion on many;
--     Journal is the tables of tool usage, requests, the billing ledger and the war room events.
--   Reconcile: Mapping is mapSettlement, STATUS_RANK and isDowngrade; Apply is
--     applySettlementEvent; Once is reconcileOnce; Orderly is about its runs.
--   Billing: histories of calls of the store and the reconciliation together. History has the calls;
--     Stages and Evolution say how a receipt may change; Growth, Lifecycle, Limit, Replays,
--     Reservations and Window have the theorems.
--   Guard: Record, Memory and Store are the two stores of idempotency keys; Spec is what they
--     promise; Refines, Agreement and Keys have the theorems.
--   Authorize: Payment, Assets and Diagnostics read a payment and what its verifier says; Requests has
--     the data and Service is authorizeAndBill; Outcome, Once and Grants have the theorems.
--   Execute: Requests has the data, Notes what is written after the handler, Cached the answer from a
--     record and Tool is executeTool; Recorded and Repeat are about a call that is repeated.
--   Identity: Mapper is normalizeIdentity and PassportMapper with its file of mappings
--     (services/mcp-adapter/src/identity/passport-mapper.mjs), Subject is resolveTarget and
--     resolveCaller; Resolution and Stable have the theorems.
--   Entitlement: Scopes and Token read a token, Guards has the guards on it; Sessions is the table
--     entitlement_sessions and validate; Admits, Valid, Bindings and Kept have the theorems.
--   RateLimit: Buckets and Strategies are the two strategies, Limiter is AdapterRateLimiter; Counts
--     and Agreement have the theorems about the strategies.
--   Resilience: Cache is the table trust_cache, Upstream is resolveTrustWithResilience
--     (services/mcp-adapter/src/client/upstream-resilience.mjs); Outcome and
--     Fallback have the theorems.
--   Trust: Band, Policy and Event are the decisions of the trust engine; Safety, Severity,
--     Ranges, Alerts and Unchanged have the theorems.
--   Platform: Webhooks is the delivery of events with its retries; Registry, Passports and Evidence
--     are createPassport, ensureSubject, setPassportStatus, rotatePassportKey and recordEvidence, and
--     Calls has histories of them; Access is authenticate, enforceRateLimit and openEventStream.
--     Deliveries, Replayed, Blocked and Quota have the theorems.
--
-- How the state corresponds. A table is the list of its rows, the newest first where the order is
-- not that of the program; a UNIQUE index is a test of two rows, and an insert that would break it
-- gives the error. A statement is a function of the table, and a transaction either gives both new
-- tables or the old ones. A Map is a list of its entries in the order of insertion. Every method
-- takes the clock's readings, random ids and the answers of other services as arguments, in the
-- order in which it makes them, so that the theorems hold for all of these. In reconcileOnce, the
-- writes of other workers between its awaits are functions of the tables.
--
-- What is simplified. Instants are milliseconds and not ISO texts. A JSON column holds the value
-- whose text it is. toLowerCase is that of ASCII. Amounts, scores and times are natural numbers.
-- The details of an error that only repeat the input are left out. The unique indexes are taken to
-- be there, as initSchema creates them. Scores and the entries of a trust vector are whole, as
-- computeResolution rounds them, and the routing priority is computed in hundredths exactly and not
-- in floating point. Confidences are in ten-thousandths, the digits that the adapter keeps.
--
-- Bounds. All loops run over a list: the rows of a table, the receipts of a run, the parts of a text.
-- There is no fuel.
--
-- Parameters. The payment verifier's answers in Reconcile and Authorize; the upstream's in Resilience;
-- base64, JSON and signatures in Entitlement; the digest of a key in RateLimit and of an id in
-- Identity; the answers of the API in Identity and of webhook receivers in Platform; the hashes of
-- requests in Platform and Execute; the errors of the rate limit, the token and the identity check, the
-- answer of the handler and the texts of the envelopes in Execute. Nothing is assumed about these. That
-- other workers too let receipts only evolve, or leave the record of a key, is a hypothesis where a
-- theorem needs it.
--
-- Not modelled: the HTTP transports and the rest of the MCP server, the configuration, the payment
-- verifier's own calls of facilitators, the store for Postgres, and everything that only prints or
-- logs. Of the platform, the selection of validators and executors with its quorum, disputes,
-- snapshots, portability, the simulator, and the registration and signatures of webhooks are left out.
-- The floating point arithmetic that scores a subject is not modelled either.
pub mod Base
pub mod Storage
pub mod Reconcile
pub mod Authorize
pub mod Execute
pub mod Identity
pub mod Platform
pub mod Billing
pub mod Guard
pub mod RateLimit
pub mod Entitlement
pub mod Trust
pub mod Resilience
