-- ===== src/Lib.antt =====
-- NestFleet: the core of the server that turns support signals into cases, cases into change
-- requests, and both into jobs for agents, and that decides who may act on them.
--
-- The parts and how they interact.
-- A case (src/infra/db/repositories/cases.ts) and a change request (change-requests.ts) are rows whose
-- status moves through a state machine (src/domain/case-state-machine.ts, cr-state-machine.ts). A
-- service that moves a case usually also queues a job for an agent (src/agents/dispatcher.ts), which
-- first asks the rate limit, the license tier and the monthly token budget (src/agents/budget.ts).
-- src/domain/transactional-dispatch.ts does both in one transaction; src/domain/correct-triage.ts
-- takes a case back to triage and cancels the change requests that were built on the wrong triage.
-- Requests reach these services through the guards of src/auth/middleware.ts, which read the
-- permissions of src/infra/db/repositories/permissions.ts, their overrides, and the license tier;
-- src/rbac/permission-engine.ts computes dependencies and differences of permission sets.
-- For customers of the managed hosting, src/fleet makes a server from a paid signup
-- (src/fleet/provisioning), follows Stripe's events (src/fleet/billing), and removes it in the end.
-- A lead decides on a change request through src/api/v1/approvals.ts, which moves the change request
-- and its case, queues the draft of the pull request, and tells the support lead. Such notices go
-- through src/notifications, which drops duplicates, waits for the end of quiet hours, gathers digests,
-- and escalates what nobody acknowledges. The agents run in workers (src/workers): the frontline
-- triages a case and hands it to the steward, which routes it to an automatic reply, to a change or to a
-- lead; the auto-reply worker sends its reply or keeps it as a draft. The agents take their evidence from src/memory, which
-- searches the chunks of a product's documents and abstains where they do not carry an answer.
--
-- The files.
-- - Prelude: boolean tests, equality as an interface, lists over native numbers, tables keyed by a
--   field (find_by and update_where), the columns of an UPDATE (fill and set_to), text by code
--   points, and the effect Eff: a function from the store to a result and the store, where what was
--   written before a throw stays written, and `transaction` takes it back.
-- - System: the store (the tables, the queue, the map of rate limit hits, the notified addresses),
--   the errors, and the environment (clock, license, the answers of the queue).
-- - Cases: Rows (cases.ts), Machine and Transition (case-state-machine.ts), with Graph, Lookup,
--   Guard and History on the table, on queries, on one call and on many.
-- - Changes: the same for change-requests.ts and cr-state-machine.ts.
-- - Agents: Actions (types.ts), Budget (budget.ts), RateLimit and Dispatcher (dispatcher.ts), with
--   Window and Dispatch on the rate limit over time and on one dispatch.
-- - Domain: TransitionAndDispatch (transactional-dispatch.ts) and CorrectTriage
--   (correct-triage.ts), with Atomicity and Correction on them.
-- - Access: Tiers, Permissions, Engine (permission-engine.ts) and Middleware (middleware.ts), with
--   Closure, Least, Roles and Grants on them.
-- - Fleet: Rows (provisionings.ts), Saga (provision.ts, health-poller.ts), Removal (deprovision.ts and
--   the nightly worker), Billing (webhook-fleet.ts, the retry of owner.ts) and Watch
--   (fleet-health-worker.ts), with Once, Endings, Polling and Alerts on them.
-- - Notify: Rows (src/infra/db/repositories/notifications.ts and the unique index of
--   migrations/0010_notifications.sql), Clock, Service and Digest (src/notifications/service.ts: when,
--   emit, flushDigest) and Escalation (escalation-runner.ts), with Schedule, Dedup, Emission, Alerts and
--   Letters on them, and Board, the set of events that the table stands for.
-- - Memory: Sources (src/memory/types.ts, ingestion/tier-assigner.ts, ingestion/freshness.ts), Chunks
--   (types.ts), Search and Retrieval (retrieval/retrieval-service.ts), with Packs and Evidence on them. Double is
--   what is done with fractions.
-- - Shared: Hex (Buffer and split), Crypto (src/shared/crypto.ts) with Secrets on it, and Slugs
--   (src/shared/slugify.ts) with Uniqueness on it.
-- - Workers: Envelope, Replies, IssueRefs and AutoReply (src/workers/auto-reply-worker.ts), with Gates,
--   Outward, Sending, Drafting, Outcomes and Once on them; Categories and Frontline
--   (frontline-worker.ts), with Triage; Routing, Jobs, Escalations and Steward (steward-worker.ts), with
--   Guards, Moves, Follow, Handover, Critical, Orphans and Leads; Preparation (change-prep-worker.ts),
--   with Requested and Prepared; Outage (outage-routing-worker.ts), with Outages and Unheard. Floor is
--   the store that they share.
-- - Api: Approvals and Refusals (src/api/v1/approvals.ts), with Decisions, Outcomes and Rejections on it.
-- - Examples: concrete tables and requests.
--
-- How the code is modelled.
-- A table is the list of its rows, newest first, and a query that writes changes the rows with the
-- key. A date is its milliseconds since the epoch, JSON is its text, and a confidence is counted in
-- ten-thousandths. Columns that the database fills by itself (created_at, updated_at) are left out.
-- A null and an absent column are the same. Lookups in object literals are by the keys that the
-- literals list. The row of a case is parsed by Zod when it is read: the rows of the model are typed,
-- so that this parse never fails; of a typed update only the range of `confidence` can fail.
-- Logging is left out. pg-boss, jsonwebtoken and the change lead's address book are the environment:
-- what they answer is a parameter.
--
-- Bounds and fuel. The loop of `resolveDependencies` runs until nothing changes; it is `resolve_from`
-- on fuel, and `resolve_dependencies` gives it eleven rounds. Each round but the last adds one of the
-- ten permissions that some permission requires, so eleven rounds reach the end from any set. The
-- health poller counts its attempts down from the 50 of the source. The loop of `uniqueSlug` has as many
-- rounds as there are slugs: each round but the last meets another one.
--
-- The managed hosting: a patch of a provisioning is the change that it makes to the row; the database
-- answers, and refuses an update only where no row has the id; a call of a cloud that throws has done
-- nothing. An error message is the list of its causes. The rows of a query come in the order of the
-- table, and the nightly run takes them one after the other.
--
-- The notifications: the texts of a disclosure and of a digest are kept as what they are built from;
-- what a transport answers is a parameter of the message. The weekend loop of quiet hours runs on two
-- rounds of fuel: a weekend has two days, and an end hour below 24 stays on its day. A subject, a body
-- and a source are never null but where the column may be.
--
-- The memory: the orders by vector distance and by text rank, and the rows that the text search hits, are
-- the search engine's; scores are of any type that has the operations of Double, and no law of them is
-- used. A Map that is filled from rows holds the last row of an id.
--
-- The workers: an agent asks a language model, so it is a parameter that answers or throws; an outside
-- service takes a message or throws, and what a `try` swallows leaves no trace but the missing message.
-- What the workers write beside the store (audit events, signals, draft metadata) is kept in lists, newest
-- first, and so is what leaves the program. Lower case is that of ASCII, with the two letters past it that
-- become ASCII; a confidence is rounded to two places with ties upwards. The job for an outage leaves out
-- the time of the report; the outage worker takes it as an argument. The jobs that a transaction inserts
-- as rows and the jobs that `dispatch` sends are two lists of the store, though one queue takes both. The
-- change preparation decrypts the token for GitHub with the definition of the secrets, which may throw.
--
-- The secrets: AES-256-GCM is a record of `seal` and `open_sealed` with the law that what is sealed opens
-- again; a string is the list of its code units; reading hexadecimal digits ends at the first pair that
-- is no byte, as in Node.
--
-- Not modelled: concurrent transactions (a transaction runs alone), soft-limit warnings, which are only
-- logged, a database that fails, the reissue of licenses, the ingestion of documents, billing, most
-- routes, the ingress, the agents, the other workers, the transports, and the console.
pub mod Access
pub mod Agents
pub mod Api
pub mod Cases
pub mod Changes
pub mod Domain
pub mod Examples
pub mod Fleet
pub mod Memory
pub mod Notify
pub mod Prelude
pub mod Shared
pub mod System
pub mod Workers
