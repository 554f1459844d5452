-- ===== src/Lib.antt =====
-- deeprun: the backend that plans and runs agent steps on generated projects, applies their
-- file changes, and has the result assessed by governance workers. The development models, from
-- packages/deeprun-backend/src, the parts that decide what happens to a run, to its files and
-- to its assessment.
--
-- The parts and how they interact. The run service (agent/run-service.ts) moves a run through
-- the statuses of lifecycleRunGraph (agent/lifecycle-graph.ts) with the methods of the project
-- store (lib/project-store.ts), each call in one transaction. A step of the agent stages its
-- file changes in a file session (agent/fs), which writes them to the working tree and commits
-- or undoes them. What was built is assessed by workers that claim jobs under a lease from the
-- governance store (governance/governance-store.ts). Runs of the older kernel are queued as run
-- jobs and locked by those that execute them (lib/project-store.ts); its correction steps are
-- held to a policy (agent/correction). Runs can stand in a graph, which has an identity,
-- revisions and a decision of its own (agent/graph-identity.ts, agent/graph-revision-diff.ts,
-- agent/graph-governance.ts), and a finished run gets a decision (governance/decision.ts).
--
-- Lifecycle: the statuses of runs and jobs and the two transition graphs (agent/run-status.ts,
-- agent/run-state-types.ts, agent/lifecycle-graph.ts). A graph is a record with the transitions
-- as a function.
--
-- Runs: the rows, the database and transactions (Runs/Db), the SQL statements on agent_runs and
-- agent_steps (Runs/Store), and the service, with one function for each method (Runs/Service:
-- createRun, transitionRunStatus and the mark methods, the counters, resumeRun; Runs/Step:
-- executeNextStep in the stages of its body). A method is a function of the database into an
-- error or a result and a database; withTransaction keeps the old database on an error. Ids and
-- the clock are arguments. The other files under Runs hold the proofs: what each stage leaves
-- (Effects, Stages, Recorded, Processed), a reference for executeNextStep (Answer, Answered,
-- Execute), and what follows from it (Paths, Limits, Worker, Transitions, Creation,
-- Correcting). A worker is the iteration of executeNextStep; the number of calls it is given is
-- the number of steps left and one, which is at most 1001, since createRun stores at most 1000
-- steps.
--
-- Session: the class FileSession with its disk (Session/Model, Session/Disk), beginStep, read
-- and stageChange (Session/Staging), applyStepChanges, commitStep, abortStep, rollbackToBase
-- and clear (Session/Applying), the diff preview (Session/Diff) and the validator
-- (Session/Validator). A method is a function of the session into a result or an error and a
-- session, since what is written before an error stays written. A disk holds the files by
-- absolute path and the faults that the next writes meet: a write that throws may leave
-- anything at its path. The platform (path.resolve, sha256, the UTF-8 length, the digits of a
-- number, localeCompare, and what reading a file as UTF-8 gives of what it holds, which may be
-- a throw) is a parameter. A file that was written as UTF-8 holds its text, and one that is no
-- UTF-8 holds other numbers, which a read replaces; a step that fails restores files from such
-- reads, so the theorem on whole steps takes the files that can be read to be text. The texts
-- that are written have no lone surrogates; the outcome of the git commit is an argument.
-- Session/Acceptance states what the validator accepts, with the paths and contents of
-- Session/Paths. The proofs on files: Session/Restore and Session/Backups (undoing),
-- Session/Writing, Session/Captures (what staging keeps), Session/Transaction, Session/Whole,
-- Session/Undo and Session/Commit.
--
-- Jobs: the table governance_jobs and its statements (Jobs/Model), sequences of them
-- (Jobs/Calls), the rows by id and the row that a claim takes (Jobs/Candidate), what one
-- statement does to one row (Jobs/Rows), and the leases (Jobs/Fence, Jobs/Stale,
-- Jobs/Claiming). Calls of several workers are a sequence of statements and of seconds that
-- pass.
--
-- RunJobs: the table run_jobs of lib/project-store.ts with its unique indexes (RunJobs/Model),
-- what updates keep (RunJobs/Unique) and sequences of calls (RunJobs/Moves), and the statuses
-- of jobs against runJobGraph (RunJobs/Statuses). Containment of capabilities in PostgreSQL is
-- a parameter, with no hypothesis on it.
--
-- ImportGraph: the detection of import cycles of agent/validation/graph-builder.ts on a graph
-- that is given (ImportGraph/Model): sets of nodes (ImportGraph/Sets), walks along edges
-- (ImportGraph/Walks), what one search keeps (ImportGraph/Search) and what the search of all
-- nodes finds (ImportGraph/Cycles). The recursion is on fuel, one more than the number of
-- nodes, since each call in progress holds another node. localeCompare is a parameter, with no
-- hypothesis on it.
--
-- RunLocks: the execution lock of a run, in the columns of agent_runs that the statements of
-- lib/project-store.ts touch (RunLocks/Model), and what sequences of calls and of seconds do to
-- a lock that is held (RunLocks/Exclusion).
--
-- Json, Correction: parsed JSON values, and the policy on correction steps of
-- agent/correction/policy-engine.ts: what it reads from a step (Correction/Metadata), the paths
-- (Correction/Paths), the rules (Correction/Policy) and the steps that pass
-- (Correction/Passing), with the paths (Correction/Allowed), the sorting of prefixes
-- (Correction/Prefixes) and the comparison with the planner's constraint (Correction/Resolved).
-- Number(x), String(x) and trim are parameters, with no hypothesis on them, and so is
-- localeCompare, of which the steps that pass take that it orders texts and tells the prefixes
-- of the two constraints apart. Rules are constructors in place of their ids.
--
-- GraphIdentity: the test for cycles and the identity hash of agent/graph-identity.ts.
-- GraphIdentity/Model has the maps and the loop on the queue; its fuel is the number of keys
-- and one, and each round processes another node. GraphIdentity/Repeats, Degrees and Release
-- have the counting, Walks the closed walks, Kahn what holds between two rounds, Acyclic the
-- whole. GraphIdentity/Identity has the material that is hashed, Order the sorting, Unordered
-- what it forgets. SHA-256 of a JSON text is a parameter, with no hypothesis on it.
--
-- JobWorker: runOnce and processJob of governance/governance-worker.ts on the tables of jobs,
-- assessments and attempts (JobWorker/Model), how a worker that holds its job leaves it
-- (JobWorker/Settling), and what one does that has lost it (JobWorker/Losing). The evaluator is
-- a parameter, with no hypothesis on it: a function of the job and the tables into an outcome
-- and the tables after it, which covers the heartbeats and the calls of others in the meantime.
--
-- Decision: buildGovernanceDecision of governance/decision.ts with the schemas it parses by
-- (Decision/Model), the payloads that keep to the schema (Decision/Accepting), the runs that
-- pass (Decision/Passing), the canonical text of a payload and its hash (Decision/Canonical,
-- Decision/Reordered), and the decision on a graph of agent/graph-governance.ts
-- (Decision/Graphs). trim, the test for a UUID, the hashes of the control plane and of the
-- payload, SHA-256 and JSON.stringify of a leaf are parameters; the runs that pass are stated
-- where the two hashes have 64 digits, as SHA-256 in hexadecimal digits has.
--
-- RevisionDiff: the difference of two revisions of a graph, agent/graph-revision-diff.ts
-- (RevisionDiff/Model), and what it holds (RevisionDiff/Changes, RevisionDiff/Keys,
-- RevisionDiff/Exact).
--
-- Prelude: numbers, lists, texts as lists of UTF-16 code units, and tests on them. Texts
-- compare by code unit, and literals are ASCII. Prelude/Substrings says what startsWith,
-- includes and endsWith tell of a text.
--
-- Not modelled: the kernel, planner, executor and tools, which call language models and
-- processes; the HTTP server and the command line; project validation and the evidence of
-- governance; plain storage of users and projects; overflow of the INTEGER counters of the
-- database.
mod Prelude
pub mod Lifecycle
pub mod Runs
pub mod Session
pub mod Jobs
pub mod RunJobs
pub mod ImportGraph
pub mod RunLocks
pub mod Json
pub mod Correction
pub mod GraphIdentity
pub mod JobWorker
pub mod Decision
pub mod RevisionDiff
