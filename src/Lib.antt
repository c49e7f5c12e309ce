-- ===== src/Lib.antt =====
-- The backend of the wf service: the parts of backend/ that decide who may do what, that carry out
-- decisions under the four-eyes rule, that limit requests and run each once, and that sign the
-- staff in with two factors. Paths below are from the root of the repository.
--
-- Parts, and how they meet:
-- * Auth (backend/internal/platform/auth: grant.go, staff.go, subject.go, principal.go): the staff
--   member of a session, with the grants of the role; Decide and Can on a right and a city; the
--   subject of a request.
-- * Perm (backend/internal/platform/perm/catalog.go): the rows of the catalogue, build, Grants and
--   Lookup. The grants that Auth reads are made from these rows.
-- * Approvals (backend/internal/platform/approvals, with queries/approvals.sql): requests that
--   wait for a second member of the staff. Approvals holds the record of a request and the state;
--   Registry the operations that can be asked for; Decide the UPDATEs of one request; Service the
--   gate, Approve, Reject and Cancel; Request the making of one; Batch CancelByInitiator,
--   ExpireDue and PurgeDecided; Listing what a list shows. The operation itself runs on a world
--   `W` that the request's kind gives, may cancel requests through CancelByInitiator in the
--   transaction of Approve, and may fail. Formats holds the formats of names and payloads. Labels,
--   Names, Cancels, Swept, Outcomes, Stored, Answers, Decisions, Accounts, Sweeps, Lifecycle and
--   Calls hold the proofs, up to runs of calls in any order.
-- * Ratelimit (backend/internal/platform/ratelimit): Ratelimit the policies, Store the statements of
--   queries/ratelimit.sql and the PG limiter, Keys the keys, Rules the classes, Parse ParseRules,
--   Middleware the middleware. Window, Limits, Retry, Rows, Rate, Accepted, Answers and Cleanup hold
--   the proofs.
-- * Access (backend/internal/staff/internal/app: session.go, login.go, factor.go, access.go, with the
--   statements of backend/internal/staff/internal/store/staffdb): the accounts of the staff, their
--   second factor, sessions and audit. Access holds the tables; Tx the transactions, with do blocks;
--   Store the statements; Factor the check of a factor, the count of failures and the lockout; Guarded
--   withFactor and passFactor, which VerifyMFA and Unlock are; Loading LoadStaff; Login the password
--   step, which asks the limiter of Ratelimit, and Logout; Self and Password what a member does with
--   his own account. Logic, Rows, Live, Tally, Moves, Checks, Calls, Quiet, Signing, Trials, Runs, Entry and
--   the others hold the proofs: Tally is an abstract counter of failures, of which every call is a
--   move, and Runs is about calls one after another. LoadStaff makes the staff member that Auth
--   decides about.
-- * Idempotency (backend/internal/platform/idempotency, and InTx of backend/internal/platform/db/tx.go):
--   Idempotency holds the keys, their statements and the claim; Handler the buffer, InTx with the hook
--   and a handler as transactions and an answer; Middleware the middleware and the replay. What other
--   requests do to the keys between two statements is an argument. Single, Once, Rows, Kept, Replay and
--   Cleanup hold the proofs.
-- * Risk (backend/internal/platform/risk/risk.go): the signals of risk, counted by the limiter; Signals
--   holds the proof.
-- * Staff (backend/internal/staff/internal/domain): Codes the recovery and invitation codes, Totp the
--   codes of RFC 6238, Email the addresses, Name the display names; Forms, Generations, Window,
--   Addresses and Names hold the proofs.
--
-- State is passed explicitly: a table is the list of its rows, a transaction is a function of the
-- state that returns the old one where it rolls back, and concurrency is the order in which
-- transactions commit, with the rows that another transaction has locked as an argument. Errors
-- are values. uuids and times are natural numbers; Go's int and time.Duration are ℤ of
-- Prelude.Int, with the wrap of int64 written where a product may leave it. Texts are lists of
-- code points.
--
-- Loops that repeat a batch until it is not full run on fuel (Prelude.Drain, and Prelude.Cleaning
-- where each batch reads the time anew); as many batches as there are rows, and one more, are
-- enough, and the theorems on them say so. All other loops are structural.
--
-- Code that is not in the repository is an argument: NFKC, case mapping, IDNA and the categories
-- of unicode, the HMAC, SHA-256, json.Valid, strconv.Atoi, time.ParseDuration, the texts of uuids,
-- what the jsonb columns of the database give back of a document, which need not be the bytes that
-- were saved, and what the database makes of an interval sent as float seconds, which is exact for
-- whole microseconds up to thirty-five years. So are the packages password, keys, token and id of
-- backend/internal/platform, which wrap such code.
--
-- Not modelled: the HTTP layer, logs apart from the limiter's, the encoding of payloads, cursors
-- and limits of pages, panics and deadlines, a COMMIT that is made but reported as failed, the
-- order of lists of recipients, the list of a member's sessions, invitations, the set-up of a
-- second factor, the management of the staff, the other platform packages, and the other modules.
pub mod Prelude
pub mod Auth
pub mod Perm
pub mod Approvals
pub mod Ratelimit
pub mod Staff
pub mod Access
pub mod Idempotency
pub mod Risk
