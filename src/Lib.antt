-- ===== src/Lib.antt =====
-- Verification of listmonk-ops: keyed transactional sends, delivery sequences, webhook deliveries,
-- the stop of A/B tests and the allocation of their recipients, and the safety policy of operations.
--
-- The program runs operations against a Listmonk server and keeps their state in JSON files. A send
-- with a key claims the key in a file store, asks Listmonk, and commits or releases the claim, so that
-- a repeated send does not reach the recipient twice. A sequence takes an enrolled subscriber through
-- steps; a worker claims due enrollments under a lease, executes the current step, which may be such a
-- send, and stores the next state. Stopping an A/B test cancels or deletes its campaigns by their
-- remote status and removes its lists when nothing refers to them. A webhook delivery is completed under
-- a lease and drives the circuit breaker of its endpoint.
--
-- Files and the code that they model:
--   Prelude: library names passed on, Boolean tests, lists measured by native numbers, results.
--   JsonStore: packages/common/src/json-file-store.ts. A file is an optional document and an update a
--     function on it; the exclusive lock makes the update one step. Locking is the lock file and its
--     recovery sentinel as calls of the file system that processes make in any order and may die between;
--     Exclusion is what the lock guarantees.
--   Idempotency: packages/common/src/transactional-idempotency-store.ts. The state is the file; claim,
--     commit and release are claim_transactional_send, commit_transactional_send and
--     release_transactional_send. Below it: Records (own keys of an object), Sweep, Validity (stored
--     documents), Refinement (the map of live records), Files, Window and Guarantees.
--   Transactional: packages/operations/src/transactional.ts and transactional-idempotency.ts. The world
--     is the store and the requests made; the client's answer, the clock and fresh tokens are inputs of
--     a call. Failures classifies errors; Once is about repeated calls.
--   Sequences: packages/automation/src/sequences.ts (data, enrollment schema); Values (JSON), Topology
--     (validateSequenceStepTopology), Engine and Execute (packages/automation/src/sequence-engine.ts),
--     Progress, Release and Retry (what an execution leaves), Reconciliation (of an ambiguous enrollment)
--     with Settlement and Resolution (what it does to the record of the send), SendKeys (the
--     keys of its messages), Tick and Accounts (what it reports), Repository (the callbacks of the file
--     repository) with Definitions, Claiming, Leases, Liveness, Completion, WellFormed and
--     Enrollments.
--   AbTest: packages/abtest/src/lifecycle.ts: the plan; Cancel (fetching and executing, with the service's
--     replies as a parameter), Safety (the requests) and Flags. Of
--     packages/abtest/src/allocation.ts: Allocation, over operations on doubles that are a parameter,
--     Doubles (what is assumed of them on safe integers), Remainders, Seats and Division.
--   Policy: packages/operations/src/specs/policy.ts: the policy that declared effects call for; Tiers says
--     how effects combine.
--   Webhooks: packages/automation/src/outbound-webhooks.ts, the store's data. Events (filters, redaction),
--     Endpoints, Queue (enqueueOutboundWebhookEvent), Claiming, Completion, Runtime (the circuit
--     breaker), Replay (retry and replay), Maintenance (reconciliation and pruning) and Dispatch (one
--     attempt; Rounds is the loop, whose fuel is its limit) are the operations. Proofs: Redaction, Circuit
--     (a history of attempts), Delivery, Keys, Queueing and Replacements (lemmas), Targets (whom an
--     event is for), Enqueue, Leasing, Recovery, Retention, Preservation, EndpointSteps,
--     Steps (the operations as a step relation) and Dispatch/Claims, Dispatch/Batches, Dispatch/Bounds.
--     The lock of the file is taken as putting the operations one after the other.
--
-- Choices: times are milliseconds and numbers native naturals; texts are compared as the library
-- decides and measured in characters, where the source counts UTF-16 units; hashes, lower-casing, the
-- regular expression of isNotFoundError and the clock are parameters. A jitter is a number of
-- thousandths, the source's is any double, and what is below 0 counts as 0. Dates have no bounds, where
-- toISOString throws for a time outside the range of Date, and the stored times of a record are numbers
-- already, where the schema checks their text. The data of an event is a JSON tree: dates, cycles and
-- other values of redactValue are left out. Loops are
-- structural. The decimal text of a number n is written with fuel n + 1, which is more than its digits.
-- Concurrent requests of the stop of a test are recorded in the order of actions.
--
-- Not modelled: failing calls of the file system, foreign hosts, atomic renames, input schemas of
-- strings and mailboxes, serialization of payloads, the worker loops, the worker records, listings and
-- signatures of webhooks, the resolution of addresses, PostgreSQL repositories, the command line, the
-- MCP server, the generated client, and floating-point statistics.
pub mod Prelude
pub mod JsonStore
pub mod Idempotency
pub mod Transactional
pub mod Sequences
pub mod Webhooks
pub mod AbTest
pub mod Policy
