-- ===== src/Lib.antt =====
-- Leon, a personal assistant's control plane: its durable work queue, the ledger of paid model calls,
-- the autonomy policy, approvals, agent runs, the audit log, the temperature guard of the GPU and the
-- planner.
--
-- The parts and how they interact. `WorkQueue` (src/leon_control_plane/work_queue.py) holds jobs for
-- existing tasks; a worker claims a job under a lease and commits each step with `checkpoint`. A job of
-- kind `openai_text` carries a request that `prepare` (src/leon_control_plane/model_work.py) approved and
-- priced; `ModelExecutor._begin` marks it as sending, within budgets, before the HTTP call, and `execute`
-- records the outcome; the cost of a lost reply is reconciled from the usage that the transport observed.
-- `ControlPlaneStore` (src/leon_control_plane/store.py) keeps tasks, approvals, agents' assignments and runs,
-- and the audit log; src/leon_control_plane/risk_policy.py decides what may run without a review.
-- `choose_route` (src/leon_control_plane/model_policy.py) picks the model for a task or a request, and
-- `build_agent_assignment_proposal` the proposal that the store then keeps, applies and runs.
-- `Guard` (src/leon_control_plane/thermal_guard.py) stops the local model when the GPU is hot, and
-- src/leon_control_plane/planner_preview.py looks for free slots between calendar events and for
-- conflicts; these two stand alone.
--
-- Which file models which part:
--   Db.antt: the rows of the tables that the queue and the ledger use, and their errors.
--   Work.antt, Work/Enqueue, Work/Control, Work/Claim, Work/Checkpoints: `enqueue` and
--     `enqueue_agent_run`, `control`, `claim`, `checkpoint`. The other files of Work prove.
--   Model.antt, Model/Ledger: src/leon_control_plane/openai_text.py and
--     src/leon_control_plane/local_model.py (configuration, requests, price), `prepare`, `_begin`
--     (`begin`) and the last transaction of `execute` (`finish`, after `outcome`).
--   Model/Receipts: `record` (`record_usage`), `_proposal` and `reconcile` of
--     src/leon_control_plane/model_receipts.py. The other files of Model prove.
--   System.antt: queue, executor and receipts as one step relation; workers, users, the clock and crashes
--     choose. It holds for any stored receipts, so the relation keeps no table of them.
--   Risk.antt, Risk/Policy: `infer_risk_class`, `evaluate_action_policy`, `classify_request_policy`.
--   Approvals.antt, Approvals/Tasks, Approvals/Create, Approvals/Names, Approvals/Decide,
--     Approvals/NewTask:
--     `update_task_status`, `create_approval`, `update_approval`, `approve_pending_approval`,
--     `consume_approval`, `continue_task_after_approval` and `create_task`.
--   Runs.antt, Runs/Create, Runs/Complete, Runs/Review, Runs/Assign, Runs/Rollback, Runs/Roles:
--     `create_agent_run`, `complete_agent_run`, `review_agent_run`, the assignment proposals with
--     `apply_agent_assignment_proposal` and its transactions, `_insert_rollback_record`, and
--     src/leon_control_plane/agent_run_model.py. The other files of Runs prove.
--   Routing.antt, Routing/Choose, Routing/Costs, Routing/Route, Routing/Validation: `choose_route` of
--     src/leon_control_plane/model_policy.py and the gate of src/leon_control_plane/local_gpu_validation.py.
--   Routing/Assign: `build_agent_assignment_proposal` of src/leon_control_plane/agent_assignment.py. The other
--     files of Routing prove.
--   Thermal.antt: `Guard.step`, `available` and `check`. Thermal/Cooling proves.
--   Planner.antt, Planner/Conflicts: `_free_slots` with `_merge_busy_windows`, and `_conflicts`. The other
--     files of Planner prove.
--   Audit.antt: `append_audit_event` and `validate_audit_hash_chain`.
--   Base.antt and its children: tables as lists of rows, unique keys, and ASCII texts.
--
-- State and operations. A transaction is a function from the database to a result and the new database;
-- an error is a value and rolls back. Ids are numbers (they are compared, and ordered in one ORDER BY);
-- times are whole seconds, and the clock's reading is an argument, as are fresh ids and tokens. Texts are
-- ASCII, so that their length is their UTF-8 length. The planner's times share one UTC offset, so no
-- daylight saving change falls within a search.
--
-- Bounds and fuel. The only fuel is that of the search for an unused id of an approval or a task: one round
-- more than there are rows, which is proved enough when the candidate ids differ.
--
-- What is outside and enters as a parameter: the secret scanner (regular expressions), SHA-256 and the
-- JSON it is taken of, the redaction of audit texts, the configured routing policy, and what a transport
-- observed. Applying an assignment reads the clock once in the model, and what the queue answers to it is
-- an argument; the queue's own tables keep only the columns of runs and proposals that it tests. Columns
-- of a run that copy or explain others (the cost estimate, the snapshot of the task, input sources) are
-- left out. A routing policy has its three cloud models; costs are ten-thousandths of a dollar, and how a
-- number is printed is an argument. Not modelled: `recover_agent_run_jobs` and `reconcile_agent_runs`, the
-- other tables of the store, HTTP handlers, workers' file and sensor access, external accounts, and the
-- web application.
pub mod Base
pub mod Db
pub mod Model
pub mod Work
pub mod Risk
pub mod System
pub mod Approvals
pub mod Audit
pub mod Thermal
pub mod Planner
pub mod Runs
pub mod Routing
