-- ===== src/Lib.antt =====
-- Verification library of flowspec-devkitd.
--
-- flowspec-devkitd runs flows: YAML files that declare steps (CLI jobs or subflows), the routes
-- between them, and lifecycle hooks. A flow is checked when it is loaded; a run of it is a set of
-- step rows; an event about the run is turned into commands by a pure engine; a scheduler stores
-- the new statuses and executes the commands; at boot a recovery plan continues the runs that were
-- interrupted.
--
-- The parts, and the modules that model them (paths from the repository's root):
--
-- crates/flowspec-domain/src/flow/types.rs: Flow.Types. Structs are records and enums data types
-- under the source's names. An IndexMap is the list of its entries.
-- crates/flowspec-domain/src/flow/dag.rs: Flow.Dag (routing_targets, adjacency,
-- forward_adjacency, steps_with_incoming_edges, entry_steps, target_is_valid), Flow.Dag.Cycle
-- (find_cycle: visit is split into enter, scan, meet and leave, and the colours and the stack are
-- passed on), Flow.Dag.Reachable (reachable_from). Proofs: Flow.Dag.Edges, Flow.Dag.Incoming,
-- Flow.Dag.Cycle.Chains, .Invariant and .Correct.
-- crates/flowspec-domain/src/flow/schema.rs: Flow.Schema (validate_fields, parse_duration), with
-- Flow.Schema.Fields and Flow.Schema.Duration.
-- crates/flowspec-domain/src/flow/validate.rs: Flow.References (the template references),
-- Flow.Predecessors (guaranteed_predecessors), Flow.Validate (one function per rule, which returns
-- what the source pushes, and validate, which appends them in the source's order). Proofs:
-- Flow.Predecessors.Correct, Flow.Validate.Rules, Flow.Validate.Criteria and Flow.Validate.Soundness.
-- crates/flowspec-domain/src/run/types.rs: Run.Types; run/derive.rs: Run.Derive.
-- crates/flowspec-domain/src/run/engine.rs: Run.Engine (decide and one function per handler).
-- What the handlers share is written once: route_onward is the end of a handler that activates
-- targets or ends the run, and failed_state and rejected_state are the copies of the state that
-- those handlers change. Proofs: Run.Engine.Commands to Run.Engine.Skipped, one module for each
-- kind of law.
-- crates/flowspec-domain/src/template.rs: Template, with Template.Context and Template.Fuel.
-- crates/flowspec-app/src/ports.rs: App.Ports (the stored records, latest_steps, run_state),
-- App.Mutations (the batched writes and the rows of hooks and events) and App.Store (the trait
-- StateStore as a record of operations, with the law IsAtomic of its batches).
-- crates/flowspec-app/src/testkit.rs, InMemoryStateStore: apply_mutation is in App.Mutations, the
-- operations are in App.Store.Memory. App.Store.Memory.Atomic makes it an instance of the
-- interface; .Outbox and .Keys prove the laws of the event outbox and of the idempotency keys.
-- crates/flowspec-app/src/wire.rs: App.Wire and App.Wire.Summary.
-- crates/flowspec-app/src/recovery.rs: App.Recovery and App.Recovery.Laws.
-- crates/flowspec-app/src/scheduler.rs: App.Split (split_at_hooks) and App.Scheduler: .Request
-- (build_step_request and the rows of new attempts), .Events (what is derived from the event),
-- .Commands (execute_commands, one function for each command), .Drive (drive_commands,
-- run_locked_event, run_locked_commands, submit), .Hooks (run_hook, the loop over a batch,
-- hook_batch_finished) and .Tasks (the tasks of a step, recover, the deadline). Proofs:
-- App.Scheduler.Invariant, .Final, .Durable and .Hooks.Laws.
-- crates/flowspec-app/src/use_cases and flow_source.rs: App.UseCases.Approvals, .StartFlow (with
-- cancel_run and advance_run), .Queries, .Status (get_run_status), .Snapshot (flow_run_snapshot)
-- and .Flows. App.UseCases.StartFlow.Keys: what a key finds after a start.
-- crates/flowspec-server/src/platform/pump.rs: Server.Pump and Server.Pump.Laws; poller.rs:
-- Server.Poller and Server.Poller.Laws; the events that client.rs sends: Server.WireEvent.
-- crates/flowspec-server/src/mcp_server/error.rs: Server.Failures.
-- crates/flowspec-server/src/devkitd/client.rs: Server.Devkitd (start from its arguments and its
-- answer, wait as a list of rounds, cancel) and Server.Devkitd.Laws.
--
-- How they interact: run_state of App.Ports gives the state on which decide works; decide reads
-- the flow by Flow.Types, its entry steps by Flow.Dag, the phase by Run.Derive, and resolves inputs
-- by Template; the commands that decide returns are what drive_commands splits at the hooks and
-- executes as batches on a StateStore; recovery_plan reads the same stored records. The use cases
-- read and write a StateStore and submit events; the poller calls them for the actions of the
-- platform, and the pump sends what the outbox of the store holds.
--
-- The scheduler. The mutex of a run makes each event one step: run_locked_event is a function on
-- the state of the store. It returns the events to submit next and a list of effects, which stand
-- for what happens outside the store: tasks for steps and hooks, cancelled jobs, aborted tasks and
-- timers. A turn has one time; the source reads the clock at each write. An error leaves what was
-- written before it, so the state comes back beside the result. A task is a function of the answers
-- of devkitd to its job, which are arguments, and ends with the event that it submits. In the use
-- cases and the poller, what submit does to the store is the argument Submit.
--
-- Modelling. A string is the list of its code points (Text); equality and order of strings are
-- theirs, and what the code reads of the UTF-8 encoding (len, split_at) is in Base.Utf8. A u32 attempt
-- and a u64 duration wrap around as in a release build. A function that may panic returns Partial, a
-- Result is Base's Result. A HashMap or HashSet whose order the code does not read is a list; where
-- the order shows in the result (multi_target_needs), it is the parameter hash_order, of which the
-- theorems assume only that it keeps the keys. What the code calls of serde_json, printing a value
-- and reading a `with:` payload, is the parameter SerdeJson, of which nothing is assumed; likewise
-- the crate semver is the record Semver, the reading of the platform's payloads is the record
-- Payloads, and what the platform accepts is the record PlatformClient. A JSON number is its printed
-- form. An instant is a number. The clock and the fresh ids that code draws are arguments. A HashMap
-- of the store in memory is an association list.
--
-- Fuel. The depth-first search (Flow.Dag.Cycle) has fuel for one round per step and one more, since
-- every round colours a white node. The worklists (Base.Closure) have fuel for every entry of the
-- stack and every edge, since each round pops an entry and an edge is pushed at most once. The loop
-- over a template has the length of the text, since each round drops the characters of a mark. submit has
-- fuel for the turns that it takes and returns none where it ends; a subflow step with retries is
-- started again without end, so no amount is enough for every flow. Where a run has ended, one unit for each event is enough. No other function has fuel.
--
-- Not modelled: the deadline that the task of a step passes to devkitd (its sum may panic like that of
-- a hook, which is modelled); the tasks, timers, locks and liveness times of the scheduler, which are tokio; the SQL
-- of the SQLite store, whose contract is the interface StateStore; the MCP protocol, the HTTP client
-- of the platform and the connection to devkitd, which are I/O; random ids; the serde text of timestamps;
-- the scripted devkitd of testkit.rs; configuration and wiring.
--
-- Examples holds a sample flow, its runs and a store, and evaluates the theorems on them.
pub mod Base
pub mod Json
pub mod Flow
pub mod Run
pub mod Template
pub mod App
pub mod Server
pub mod Examples
