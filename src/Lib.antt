-- ===== src/Lib.antt =====
-- lsfmgr submits jobs to LSF, follows their states and kills them for a Qt application; mocklsf is the
-- LSF that it is tested against. A manager owns a store of job sets and job records. A submission
-- registers with the gate of the job set, and the kill scope of a kill refuses and cancels
-- submissions at that gate. The editing of job sets, the polling and the kills write to the store
-- through guarded transitions; the completion tracker and the state pacer decide what the
-- application is told, and when.
--
-- The files, with the code they are about:
--   Base          shared names, dictionaries as association lists in the order of insertion, tests on
--                 numbers, lists, white space.
--   States        lsfmgr/states.py: JobState with its predicates, JobStatus, JobRecord, JobSetRecord.
--   Store         lsfmgr/store/memory.py and lsfmgr/store/base.py. Effects has the store and the monad of
--                 a method that may raise; Records, Memory and Update have the methods of InMemoryStore
--                 by their names; Defaults has the bodies of JobSetStore that InMemoryStore overrides;
--                 Calls has the writing calls as data. The other files hold lemmas.
--   Lifecycle     lsfmgr/lifecycle.py: Gate is SubmitGate, Scope is KillScope.
--   JobSets       lsfmgr/jobset_core.py: Choices has the checks and resolve_refs, Manager the operations
--                 of JobSetManager that write.
--   Polling       lsfmgr/monitor.py: Merge has merge_fields and the aggregate of an array, Cycle one
--                 query of JobsetQuerier with _judge_missing.
--   Killing       lsfmgr/killer.py: Confirm has _kill_confirm and _confirm_by_query, Marking has
--                 _mark_killed. Targets has the grammar of the targets, from lsfmgr/command.py.
--   Commands      lsfmgr/command.py: Chunks has chunk_args; Queries has _run_query, _bjobs with the
--                 formats that are left, and bjobs_by_ids; Bkill has _parse_bkill_resolved and
--                 bkill_targets_confirm, over the calls in the order in which they end.
--   Statuses      lsfmgr/internal_status.py: Source has the state of InternalStatusSource, Ledger the
--                 merge, the elapsed times and the expiry, Fetching the fetches and the wait of a
--                 caller, whose loop goes over the times at which it wakes; Steps has the interleavings.
--   Submitting    lsfmgr/submitter.py: Cycle has _SubmitContext, the signals and what a thread has left
--                 to do; Counting has _count and what it calls; Records what is written to the store;
--                 Tasks has _SubmitTask and the ledger of the retries, one function for each section
--                 between two points at which other threads may come between; Steps has the
--                 interleavings; Launch has _LaunchTask and _launch_cycle, Refusals the new context
--                 and the refusals of the gate.
--   Completion    lsfmgr/completion.py: CompletionTracker.
--   Pacer         lsfmgr/pacer.py: StatePacer.
--   Util          lsfmgr/util.py: the ledgers of the gate, EmitThrottler and LogSampler.
--   Cluster       mocklsf/models.py, mocklsf/db.py and mocklsf/scheduler.py.
--   Tests         the theorems at concrete inputs.
--
-- How the code is read: a method that holds its lock throughout is one step on explicit state. A
-- method of the store returns a Result and a store; an exception is a value. A call has one time,
-- where the code asks the clock more than once. Times are natural numbers of microseconds. Signals
-- are returned as events, and what their slots do to the state of the caller is an argument, as are
-- the answer of the status source and what other threads do while it is awaited, and what they
-- write to the store between the calls of an edit, a removal or a detection of lost jobs. Log lines
-- are left out. Loops go over lists, or over the retries that are left, so that no fuel is needed.
--
-- Not modelled: the processes and threads themselves, Qt and its timers, SQL below the level of one
-- statement, files and the command line; and so far the rest of the killer and of the commands of
-- LSF, the parse of what the status callback gives, the options and the manager that joins the
-- parts. The launch of a cycle is one step, and an exception of its own is not modelled.
pub mod Base
pub mod States
pub mod Store
pub mod Util
pub mod Lifecycle
pub mod JobSets
pub mod Polling
pub mod Commands
pub mod Killing
pub mod Statuses
pub mod Submitting
pub mod Completion
pub mod Pacer
pub mod Cluster
mod Tests
