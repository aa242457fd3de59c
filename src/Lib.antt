-- ===== src/Lib.antt =====
-- A model of the agent scheduler's core: what stands between a request and a provider session.
--
-- Two programs meet here. An agent process (internal/wrapper) serves conversations, each named by a
-- context id. Its session pool keeps a provider session for each context; a turn gate for each
-- entry lets one turn at a time into a session; the idle monitor counts the turns that the gated
-- sessions bracket, asks the pool before it acts, and ends a process that has nothing to do; the
-- lifecycle controller composes a turn of an initialization, the business turn and a finalization;
-- the task store keeps what was asked. The scheduler (internal/scheduler) runs agent processes: its
-- invocation ledger records every call and survives a crash by its log file, its instance pools
-- spread contexts over the processes of one card, its live event hub shows progress, and in its
-- rooms several agents talk to each other, one at a time. Its supervisor starts, stops, wakes and
-- restarts the processes and gives them ports and tokens, and the registry (internal/registry) keeps
-- the cards with which they announce themselves. The managed-agents facade (internal/cmagateway) runs
-- an outcome: turns of an agent that a separate grader judges against a rubric, until it is
-- satisfied or the iterations are used up.
--
-- Wrapper/Gate      internal/wrapper/turn_gate.go. `acquire` is the critical section before the
--                   `select`, `give_up` that of the `ctx.Done()` branch, `release` hands the gate
--                   over; Gate/Line has the steps that callers and the pool interleave.
-- Wrapper/Pool      internal/wrapper/session_pool.go: `lookup_or_create` (LookupOrCreate), with
--                   `enforce_cap` and `evict_for_cap`; Pool/Reaper has `reap_once` in its two
--                   halves `reap_scan` and `reap_delete`, `enforce_max_evicted`,
--                   `handle_session_id_known`, `mark_turn_finished`, `rehydrate` and `stop`.
-- Wrapper/Idle      internal/wrapper/idle_monitor.go, and EnableIdleReaper.
-- Wrapper/Tasks     internal/wrapper/taskstore.go.
-- Wrapper/Lifecycle  internal/wrapper/lifecycle_store.go (Lifecycle/Store) and lifecycle.go
--                   (Lifecycle/Controller): `run`, `initialize`, `run_business`, `finalize`. A
--                   session's turns run one after another, as its mutex makes them.
-- Scheduler/Ledger  internal/scheduler/invocation_ledger.go: Ledger has the methods, Ledger/Record
--                   the data and pure functions, Ledger/Replay the replay of the log,
--                   Ledger/Compaction the compaction and the start-up.
-- Scheduler/Instance  internal/scheduler/instance.go: the pool, and in Instance/Names the names.
-- Scheduler/Live    internal/scheduler/live_events.go, the hub.
-- Scheduler/Rooms   internal/scheduler/rooms.go and roomstore.go: Rooms/Room has the critical
--                   sections, Rooms/Relay the loop `drive`, Rooms/Roundtable the loop
--                   `drive_roundtable` with the moderator's consolidation, Rooms/Log the log and its replay,
--                   Rooms/History the appends that the critical sections leave to do,
--                   Rooms/Driven the interleavings of operators and drives, Rooms/Halted
--                   what follows a stop.
-- Scheduler/Supervisor  internal/scheduler/scheduler.go, with the ports of config.go and the
--                   snapshots of lifecycle.go: Supervisor/State the data, Supervisor/Ports the
--                   choice of a port, Supervisor/Launch `start_agent_locked` and the calls that
--                   start and stop, Supervisor/Monitor exits and restarts, Supervisor/Wake
--                   `ensure_awake_once`, `rollback_begins`, `rollback_ends` and `ensure_agent`,
--                   Supervisor/Instances and Supervisor/Pools the instances of a card,
--                   Supervisor/Dial `agent_dial_target`, Supervisor/Run histories of events.
-- Registry          internal/registry/registry.go.
-- Cma               internal/cmagateway: Cma/Outcome the outcomes of a session (cma/types.go,
--                   store/store.go), Cma/Request the request (outcome.go), Cma/Turn one
--                   turn and one grading (with `executeTurnCore` of handlers.go), Cma/Loop the
--                   loop, Cma/Recovery the restart.
-- Examples          inputs at which the theorems are applied.
--
-- How the code is rendered. Numbers are natural numbers, with the wrap of a 64-bit counter written
-- out. A time or a duration is a number, 0 the zero time. A string is the list of its bytes. A map
-- is an association list, in any order, since Go leaves the order of `range` open. A method that
-- holds one mutex throughout is one function from state to state, and a history is a list of calls.
-- Pool methods release their mutexes in between; they are run one after another here, but for the
-- two halves of `reap_once`, which other calls may separate. The gate is modelled at the grain of
-- its critical sections. A provider session is the number under which it was started; its health,
-- its id and the success of the factory and of a save are parameters (`Env`). `sort.Slice` is an
-- insertion sort. The calls of `Close`, `onForget` and `onReap` are lists or counts in the state.
-- Depths, limits and retention times are those of the code. The decimal
-- numerals run on fuel, and n + 1 rounds are enough for the number n, since each divides it by ten;
-- so do the drives of rooms: results below say how much is enough.
--
-- In the lifecycle a provider turn is what it does: it does not open, does not start, or streams
-- events, with two flags for the deadline of its context and the end of the caller's. The clock and
-- the disk answer by the number of the reading; an error keeps its cause and its text is a
-- parameter, as `strings.TrimSpace` is; the statistics of `EventTurnDone` are left out. In a room the
-- folding of names and the names that the regular expressions find are parameters, and an agent
-- answers by the number of its turn. `MaxChain` is positive, as the constructor makes it, so it is a
-- natural number. The record of a critical section is appended to the room's log afterwards, in any
-- order, and the append may fail or find no store; a failed append that leaves a part of a line is
-- not modelled.
--
-- A line of the ledger's file is an event or a line that does not decode: the JSON codec, the
-- longest line of the scanner and errors of reading are not modelled; one flag for each call says
-- whether the file system works. A2A tasks are a type parameter.
--
-- In the supervisor an event is one critical section: a call, an exit, a timer, a wake or a
-- rollback, in any order, and a registration up to its wait for health. What a call meets (the
-- verdict on a configuration, the listeners, the token, whether the command starts) is its `Env`;
-- paths, text folding and the wording of errors are parameters (`Host`). A process is the number
-- under which it was launched. Durations are below 2^62, so that a doubled delay does not wrap. The
-- scan of the ports takes one round for each port of the range. In the facade the turns and gradings
-- of an outcome are read from a `World`, and the flags that cancel it may be set at each point where
-- the code looks; an event's id is its place in the log, and the events of observability are left
-- out. The loop takes one round for each iteration, and a result below says that they are enough.
--
-- A chat's choice of an instance is one step, though the code
-- leaves its locks in between.
--
-- Not modelled are the health probes, the gateway's proxying, the executor and HTTP servers, provider
-- subprocesses, the facade's sessions and reconciliation beyond outcomes, and all logging.
pub mod Prelude
pub mod Wrapper
pub mod Registry
pub mod Cma
pub mod Scheduler
pub mod Examples
