-- ===== src/Lib.antt =====
-- Verification of durare, a library for durable execution: workflows whose steps are checkpointed,
-- so that a crashed run resumes where it stopped.
--
-- The model follows the in-memory state provider, src/memory.rs, which is the reference of the
-- contract that src/provider.rs states for every provider: an engine creates workflow rows, records
-- the outcome of each step once, dispatches queued workflows under limits, delivers messages, and
-- claims the workflows of a dead executor. All of these work on one state behind one mutex. Over
-- any provider, the durable context of src/context.rs runs the body of a workflow: each of its calls
-- claims a position, is served the record of that position if there is one, and otherwise does its
-- work and records it.
--
--   Prelude, Map    shared helpers: Boolean tests, lists, sorting, machine integers, text, and
--                   `HashMap` as an association list whose order stands for the iteration order
--   Errors, Classify src/error.rs: the error values, their texts, `Error::code`; the divergences of
--                   src/replay.rs
--   Host            the third-party code as an interface: serde_json values and parsers, chrono
--   Recorded        src/recorded_error.rs and `decode_error`, `restore_error` of src/serialize.rs
--   Recorded.Encode their writing half, `encode` and `encode_error`
--   Workflow        src/provider.rs: `WorkflowStatus`, the lifecycle states, `check_target`
--   Schedule        src/schedule.rs and src/queue.rs: the stored values
--   Memory          `Inner`, the state, with the shared helpers at the end of src/memory.rs
--   Memory.Status   `insert_workflow_status`, `get_deduplicated_workflow`, `set_workflow_status`
--   Memory.Steps    `record_step_result`, `get_step_result`, patches and child records
--   Memory.Messages `insert_notification`, `send_from_workflow`, `consume_notification`
--   Memory.Dispatch `dequeue_workflows`, `transition_delayed_workflows`, `queue_partitions`
--   Memory.Streams  streams and events
--   Memory.Manage   cancel, resume, re-enqueue, delete, delays, attributes
--   Memory.Lifecycle forks, `claim_for_recovery`, `insert_child_workflow`
--   Memory.Registry schedules, application versions, queues
--   Memory.Listing  `list_workflows`, `get_workflow_steps` and their filters
--   Memory.Aggregates `get_workflow_aggregates`, `get_step_aggregates`
--   Memory.Retention `garbage_collect` of src/provider.rs over these operations
--   Memory.Calls    histories: the calls that change the state, as data, all but
--                   `import_workflow`, and their run
--   Execution       src/execution.rs: the failure latch, and where a durable call may run
--   Replay          src/replay.rs: what a verification run books, and its report
--   Provider        the methods of the trait of src/provider.rs that a context calls, and their
--                   contract; Memory.Durable is the in-memory provider as one
--   Context         src/context.rs: the context, as state, and its calls; Context.Calls has the
--                   calls at a position, Context.Body the bodies of workflows and their run
--   Context.Replayed the reference: what a body returns on a table of recorded steps alone, and
--                   Context.Replayed.Settled: when a run has left a record of every call
--   Tests           a sample host, sample states, and the theorems at concrete inputs
--
-- Each asynchronous method takes the lock for its whole body, so it is a function from the state to
-- its result and the new state; interleavings of executors are lists of calls. Readings of the clock
-- and fresh uuids are arguments. i32 and i64 are integers, and the arithmetic that the code does on
-- them wraps as in a release build. A loop over a vector that grows while it is walked runs on fuel,
-- one more than the ids and rows together; the loop of the garbage collection on one more than the
-- rows, since a full batch deletes at least one.
--
-- A body of a workflow is the tree of the calls that it makes, each with the place where it is built
-- and the place where it is polled, and with what follows each answer. Calls are awaited one at a
-- time, at one place each; step bodies, clocks and what other executions do to the provider's state
-- before each call and during each step body are arguments. The retry loop of a step is a recursion
-- on the retries that are left.
--
-- Not modelled: spans, metrics, the length of waits, a step body that latches a failure through
-- `StepCtx::cancelled`, receives, event reads, child starts, selections and transactions of a
-- context, the SQL providers, whose logic is SQL text, the asynchronous engine, its clients and
-- network services, and of the in-memory provider export and import.
pub mod Prelude
pub mod Map
pub mod Errors
pub mod Host
pub mod Classify
pub mod Recorded
pub mod Execution
pub mod Workflow
pub mod Schedule
pub mod Replay
pub mod Provider
pub mod Context
pub mod Memory
pub mod Tests
