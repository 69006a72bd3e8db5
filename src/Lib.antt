-- ===== src/Lib.antt =====
-- Codex job orchestrator: a model of the parts that decide which worker may run, what it may do and
-- what becomes of its files, with the theorems that make them correct.
--
-- The program runs AI workers as jobs. A controller admits queued candidates through lease files
-- shared by all processes, and hands each lease to the supervisor that it launches. A job's record
-- is one file, written under a lock by several processes. Recovery takes claims on jobs whose
-- processes died. Each tool call of a worker is held against a budget. Retention plans what may be
-- archived or truncated.
--
-- Files, and the code that they model:
-- - Common: numbers, text, JSON values and lists that the other files share.
-- - Admission: src/admission.ts. Types, Validate and Evaluate are the pure part; Lease and Files the
--   lease files as a directory with its faults; Manager and Owner the operations of
--   AdmissionManager; Lock the waiting loop of one process and Race the lock file between processes
--   as a step relation; Run any sequence of calls; Written is about
--   the leases that the manager writes. Table, Capacity, Sharing, Owners and Updates
--   carry the invariant; Decision, Reasons and Honesty are about one evaluation.
-- - Controller: src/admission-controller.ts, on top of Admission. decide, handoff and, in
--   Controller/Pass, pump are the functions of the same names; Order and Ranking are about the
--   order of a pass; a turn carries what the callbacks and
--   the file system answer.
-- - Budget: src/budget.ts. evaluate_budget_tool_call is evaluateBudgetToolCall; Calls runs it over a
--   job's calls.
-- - JobStore: src/job-store.ts. update_job, update_job_if and create_job_record keep the names;
--   Replace is atomicWriteJson with renameWithRetry, StateLock the lock of a job's record, History
--   any sequence of operations. Of isValidJobRecord the tests on fields that the model leaves out
--   are a parameter.
-- - Proc: src/proc.ts, pidIdentityStatus and killTreeVerified; Ancestors is buildAncestorPidSet and
--   evaluatePidCandidate.
-- - Recovery: src/recovery.ts, the claims and acquireClaim.
-- - Retention: src/retention.ts. Policy, Registry, Scan and Plan follow the file from top to bottom.
-- - JobIndex: src/job-index.ts. Types, Sessions and Apply are applyIndexedJob and what it calls;
--   Files is loadIndex, Record recordIndexedJob, Rebuild rebuildIndex, Chain replyChain. Shape,
--   Replies, Listed, Moves, Counted and History carry the invariant of the index, Search is about the
--   binary search, Upsert about one delta, Keyed about the records, Replay and RoundTrip about the
--   journal.
-- - SupervisorLease: src/admission-supervisor-lease.ts, on top of Admission/Owner. Wait is about the
--   loop of waitForOwnership, Timer about any interleaving of the operations, Release about their
--   results.
-- - JobEvents: src/job-events.ts. Lifetime is about the watcher and the timers, Dispatch about the
--   events.
-- - Contracts: src/contracts-v2.ts. Paths, Budgets, Entries and Validate follow the file; Contained
--   and Inside are about paths, Limits and Within about budgets, Legacy about buildLegacyContract.
-- - BackendPolicy: src/backend-policy.ts, the capability table and the reply preflight.
--
-- State is passed explicitly. What the operating system, the path functions, Date.parse and the
-- callbacks answer is a parameter: a record of functions, or for a loop the outcome of each pass. A
-- rename that steals a lock or a claim goes by name, so its outcome says which file it moved.
-- Times and sizes are natural numbers, so dates before 1970 and fractions of a millisecond are left
-- out, except that the clamp of the time to live keeps one; numbers that come from outside may be negative or no integers (Number). Text is compared by
-- code points.
--
-- Loops run on fuel where the source has an unbounded loop. rename_loop has the fuel of the
-- source's bound on attempts, six; acquire_claim and acquire_job_state_lock take theirs as an
-- argument and answer `unfinished` when it is used up, which is no answer of the source. The wait
-- for the admission lock runs over the list of its rounds. The walk up the replies has one round more
-- than there are jobs, the wait for ownership one more than its timeout has milliseconds; find_place
-- has as many rounds as its list has entries, and Search shows that more change nothing.
--
-- Not modelled: processes, streams, sleeping, the texts of thrown errors, the environment; of
-- src/job-index.ts the lock and the check of consistency; and the files
-- src/scheduler.ts, src/supervisor.ts, src/registry.ts, src/parser.ts and the other modules that the
-- list above does not name.
mod Common
pub mod Admission
pub mod Controller
pub mod Budget
pub mod JobStore
pub mod Retention
pub mod Proc
pub mod Recovery
pub mod BackendPolicy
pub mod JobIndex
pub mod Contracts
pub mod JobEvents
pub mod SupervisorLease
