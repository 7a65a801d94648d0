-- ===== src/Lib.antt =====
-- The qc-backend service: credits of tenants, the status of assets under lifecycle calls, escrows,
-- transfers and payments, the scopes of API keys, the taps of tags and the orders of tags, the
-- queue of chain transactions, rate limits, and the emergency pause of the chains. Paths are
-- relative to the repository's root.
--
-- Base holds what all modules share: Boolean tests, integers over the native numbers, lists, texts
-- (with JavaScript's trim and truth tests, and hexadecimal digits), the lemmas on tables, and
-- Base.Calls, the calls of the program as functions from a state to a result and a state, with the
-- rules of Base.Keeping for a property that a call keeps. A write that precedes an error stays
-- written, except in a transaction, which is rolled back.
--
-- Ledger models src/services/core-facets/CreditLedgerFacet.ts, the ledger of credits (Types,
-- Guards, Table, Operations for reserveCredits, consumeReservedCredits, releaseReservedCredits and
-- recordPurchasedCredits, Admin for grantCredits, adjustCredits, revokeCredits and the queries),
-- and RegistrationCreditFacet.ts (Registration). The store has the entries, newest first, the audit
-- records and the known tenants. A row is inserted when its numbers fit the INT4 columns, its
-- idempotency key is new to the tenant, and its tenant, and its purchase order if it names one, are
-- there. Outcomes says in which three ways a call may end, Operational and Administrative that
-- every call ends so, and Commands makes them into runs. Solvency, Accounting, Replay (with Keys)
-- and AuditTrail are the properties of runs; Account is the abstract account that the operational
-- calls implement; Paying is about paid registrations; Gaps has what the scopes of the balances let
-- through.
--
-- Asset models LifecycleFacet.ts, EscrowFacet.ts, TikinEscrowFacet.ts, TransferRegistryFacet.ts and
-- BillingFacet.ts of src/services/core-facets (Lifecycle, Escrow, Tikin, Transfer, Billing) and
-- src/services/EscrowReleaseWorker.ts (Worker). They share the tables of Types and the queries of
-- Rows: all of them move the status of assets, which is why Commands puts them into one run.
-- Keeping has the rules by which a property of the tables is kept through their shared steps;
-- Closing uses them for closed escrows, and Terminal for archived and burned assets. Moves compares
-- the lifecycle with the list of its allowed moves.
--
-- Access models src/security/apiKeyScopes.ts (Scopes, Unique, Keys), the roles of
-- src/types/index.ts with src/middleware/rbacGuard.ts and apiKeyScopeGuard.ts (Roles), and
-- src/diamond (Proxy), whose facets are a parameter. Catalogue compares the registry of facets with
-- the catalogue of scopes, Normal is about the scopes that a key is given, Dispatch and Readers
-- about which facets are called.
--
-- Device models DeviceGuardFacet.ts (Guard), DeviceRegistryFacet.ts (Registry) and
-- NfcValidationFacet.ts (Cmac) of src/services/core-facets, and encryptJson and decryptJson of
-- src/services/CryptoService.ts (Keys). A tap reads its device before it updates it; Steps has both
-- halves as steps of their own, so that the taps of its runs interleave. Replay and Runs show what
-- the counters keep through them, Messages is about the authenticated message and the stored keys.
--
-- Retry models src/services/RetryWorker.ts: Execution is executeTransaction over adapters that are
-- a parameter, Worker has processRetries, handleFailure and enqueue. A round reads the clock for
-- its query and again for each transaction that it has executed. Attempts and Rounds compare a
-- round with one attempt at each row of its batch, Oldest and Turns say whose turn it is and what
-- an attempt makes of a row, Schedule says when a failed row is tried again, Resting that a settled
-- row is left alone in runs (Steps) of several workers, and Patience that a transaction that keeps
-- failing becomes a dead letter.
--
-- Qtag models QTagFulfillmentFacet.ts (Guards, Table, Orders for the calls that start an order,
-- Release for those on an order, Queries) and CommissioningFacet.ts (Commissioning, Confirming) of
-- src/services/core-facets, with actors and numbers from Ledger. Activated, Keeping and Encoding
-- carry the activation of an order through the calls, which Runs puts together; Balances, Covering,
-- Solvency and Holding do the same for the balances of a user's tags; Once is about a reservation
-- that is consumed. Ids of its rows are drawn by a parameter. An entry is inserted under the same
-- conditions as in Ledger, with the order of the tag among the rows that must be there.
--
-- Rate models src/services/core-facets/RateLimiterFacet.ts (Limiter) and
-- src/middleware/rateLimiter.ts (Middleware). Counts and Usage say what a check does to the
-- counters, Limits how many requests pass in a minute.
--
-- Breaker models src/services/CircuitBreakerService.ts (Service), with the paused flags of the EVM
-- contracts beside the states that it keeps. A toggle may be refused, mined and confirmed, or mined
-- while the wait for it rejects; it is mined before its call ends, or never. Runs compares the two
-- in runs of its calls, Reports is about what a global pause returns.
--
-- Ids that the database draws are counting numbers, times are seconds (milliseconds in lifecycle
-- and transfer events), JSON is kept as text, and a number of JavaScript is an integer, a fraction
-- or not finite. Fees are in cents. A findFirst without an order takes the newest row. Every loop
-- is a structural recursion over the rows it goes through; the worker's batch has ten rows.
--
-- Outside the model: the chain adapters, the payment provider and the hash functions, which are
-- parameters (Asset.Types.Outside and the lookup of payments); the queue run that some calls start
-- without waiting; the proofs that escrow payloads carry to the chain; concurrent calls, since each
-- call runs to its end (but for the taps of Device and the workers of Retry), and the isolation of
-- transactions; the HTTP layer, cryptography, and the services that this library does not name.
pub mod Base
pub mod Ledger
pub mod Asset
pub mod Access
pub mod Device
pub mod Retry
pub mod Qtag
pub mod Rate
pub mod Breaker
