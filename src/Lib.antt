-- ===== src/Lib.antt =====
-- A durable agent: it plans the work on an objective as a graph of tasks, runs the tasks with tools,
-- and survives crashes, since every step is in a SQL store before and after it happens. The paths
-- below are from src/durable_agent.
--
-- Parts and files
--   Domain: domain/errors.py (Common/Result), domain/enums.py, domain/models.py (Domain/Models), and
--     domain/state_machine.py (Domain/StateMachine, with histories of accepted transitions).
--   Plan: domain/plan.py. Order has `topological_order` and `parallel_batches`, Validate has
--     `validate_plan`, Ready has `ready_tasks`, and Topological the lemmas on the order and the
--     batches.
--   Planner: planning/planner.py, the rule-based plan (Baseline) and the repair loop around a language
--     model.
--   Store: persistence/store.py, the runs, tasks, attempts, errors and events (`SqlStore.update_run`,
--     `update_task`, `start_task_attempt`, ..). Tables are partial maps under their primary keys, or
--     lists. A method is a transaction, a function from a store to a result with the new store; an
--     error leaves the store as it was. An UPDATE with a WHERE clause that matches no row is the
--     conflict that the code raises.
--   Context: domain/context.py, and context/manager.py (Build for `build`, `_compress` and
--     `invalidate_if_stale`).
--   Lifecycle: idempotency keys and lifecycle requests of persistence/store.py (`create_run`,
--     `create_lifecycle_request`, `pending_lifecycle_request`, ..; Requests), `pause` and `cancel` of
--     application/service.py (Service), and the head of the loop of `advance` in
--     orchestration/orchestrator.py with `_pause`, `_cancel` and `_fail_stuck_run` (Turn). A `World`
--     has these tables beside the store.
--   Lease: `acquire_lease`, `renew_lease` and `release_lease` of persistence/store.py, with the read
--     and the write of each transaction apart.
--   Checkpoint: domain/checkpoint.py (Envelope), `append_checkpoint` and `prune_checkpoints` of
--     persistence/store.py (Rows), and checkpoints/manager.py (Chain and Manager). Rows are newest
--     first. The orchestrator and the recovery write a checkpoint at the end of each handler.
--   Tools: the journal of persistence/store.py (Journal), and tools/executor.py (Executor for
--     `execute`, Reconcile for `reconcile_uncertain`). What tools do to the world is a state `W`.
--   Orchestrator: orchestration/orchestrator.py, handlers over the store: `_select_batch`,
--     `_start_batch` (start_task), `_promote_ready`, `_handle_batch_failures`,
--     `_skip_transitive_dependents`, and the loop of `_cancel`. Code of several transactions is an
--     `Exec`: what was committed before an error stays.
--   Recovery: recovery/manager.py, the tasks of a run that is resumed, and the circuit breaker.
--   Evidence: domain/evidence.py and evidence/ledger.py, the check of a claim, and `add_claim` of
--     persistence/store.py with the links of claims to evidence.
--   Common: shared types, lists, dicts, sorting, and lemmas on them. Examples: the theorems at
--     concrete inputs.
--
-- Numbers and fuel
--   Counters, sequences and times are natural numbers; Python's integers have no bound. The loops
--   over a queue in Plan/Order and over blocked tasks in Orchestrator/Handlers take the number of
--   tasks (and one) as fuel: each round takes a task off the queue for good, or blocks one more.
--
-- Parameters
--   Digests and pydantic's JSON (Checkpoint.Envelope.Codec), JSON schema validation, redaction and
--   sizes of JSON (Tools.Executor.Platform), the tools, `str.strip` and `str.split` (Context.Texts,
--   Lifecycle.Service.Hashes, Planner.Words), the language model's answers, the identifiers and the
--   clock. The threshold at which a context is compressed is a float, and its floor is a field of the
--   budget.
--
-- Not modelled
--   Logs, metrics, spans, payloads of events and timestamps that no code branches on; the workers,
--   the heartbeat and the reports of `advance`; the repository's index, retrieval and
--   research; the command line and the API; files, subprocesses and providers.
pub mod Common
pub mod Domain
pub mod Lease
pub mod Context
pub mod Checkpoint
pub mod Tools
pub mod Plan
pub mod Planner
pub mod Store
pub mod Orchestrator
pub mod Lifecycle
pub mod Recovery
pub mod Evidence
pub mod Examples
