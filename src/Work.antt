-- ===== src/Work.antt =====
-- src/leon_control_plane/work_queue.py: the durable work queue, what its operations share.
-- An operation is a transaction: a function from the database to a result and the new database; an
-- error rolls back. The clock's reading, the id of a new job and a lease token are arguments.
pub mod Enqueue
pub mod Control
pub mod Claim
pub mod Checkpoints
pub mod Invariant
pub mod Preserve
pub mod Advance
pub mod Commit
pub mod Fresh
pub mod Admit
pub mod Fence
pub mod Handover
pub mod Order
pub mod Samples
mod Examples
use leon_ai_assistant.Base.{
  ℕ, Bool, true, false, ◌&&◌, ◌||◌, not, String, List, [], ◌∷◌, Option, none, some, ◌==◌, is_some,
  leb, if◌then◌else◌, map,
}
use leon_ai_assistant.Base.Text.{one_of, lower}
use leon_ai_assistant.Base.Rows.{find, count, where_rows}
use leon_ai_assistant.Db.{
  Db, Job, Task, Kind, python_syntax_check, openai_text, Status, queued, running, paused, JobError,
  Checkpoint, WorkerResult, ModelRow, ModelState, sending, unknown, Binding, AgentRun, Proposal,
  Result, ok, err, integrity, task_eligible, model_of, is_local,
}

-- len(JOB_STEPS[kind])
unfoldable pub total_steps : Kind → ℕ
total_steps python_syntax_check = 3
total_steps openai_text = 1

abbrev pub max_attempts : ℕ
max_attempts = 3

abbrev pub lease_seconds : ℕ
lease_seconds = 30

abbrev pub max_open_jobs : ℕ
max_open_jobs = 100

abbrev pub is_model : Kind → Bool
is_model python_syntax_check = false
is_model openai_text = true

-- `status IN ('queued','running','paused')`
abbrev pub is_open : Status → Bool
is_open queued = true
is_open running = true
is_open paused = true
is_open _ = false

abbrev pub is_running : Status → Bool
is_running running = true
is_running _ = false

abbrev pub is_queued : Status → Bool
is_queued queued = true
is_queued _ = false

unfoldable pub open_jobs : Db → ℕ
open_jobs db = count (λ (j : Job). is_open j.status) db.jobs

-- What a job keeps when it gives up its lease.
unfoldable pub release : Status → JobError → ℕ → Job → Job
release s e now j = record j {
  status = s;
  error = e;
  lease_token = none;
  lease_until = none;
  updated_at = now;
}

insert_step : Checkpoint → List Checkpoint → List Checkpoint
insert_step c [] = c ∷ []
insert_step c (d ∷ rest) = if leb c.step d.step then c ∷ d ∷ rest else d ∷ insert_step c rest

-- ORDER BY step
by_step : List Checkpoint → List Checkpoint
unfolding insert_step
by_step [] = []
by_step (c ∷ rest) = insert_step c (by_step rest)

unfoldable pub results_of : ℕ → Db → List WorkerResult
unfolding by_step
results_of id db =
    map (λ (c : Checkpoint). c.result)
      (by_step (where_rows (λ (c : Checkpoint). c.job_id == id) db.checkpoints))

-- INSERT INTO work_jobs, with its PRIMARY KEY and its UNIQUE request_id
unfoldable pub insert_job : Job → Db → Result Db
insert_job j db =
    if is_some (find (λ (k : Job). k.id == j.id || k.request_id == j.request_id) db.jobs)
    then err integrity
    else ok (record db { jobs = j ∷ db.jobs })

unfoldable pub insert_model : ModelRow → Db → Result Db
insert_model m db =
    if is_some (model_of m.job_id db)
    then err integrity
    else ok (record db { models = m ∷ db.models })

unfoldable pub insert_binding : Binding → Db → Result Db
insert_binding b db =
    if is_some (
      find
        (λ (c : Binding).
          c.job_id == b.job_id || c.run_id == b.run_id || c.proposal_id == b.proposal_id)
        db.bindings)
    then err integrity
    else ok (record db { bindings = b ∷ db.bindings })

-- INSERT INTO work_checkpoints, with its PRIMARY KEY(job_id, step)
unfoldable pub insert_checkpoint : Checkpoint → Db → Result Db
insert_checkpoint c db =
    if is_some (find (λ (d : Checkpoint). d.job_id == c.job_id && d.step == c.step) db.checkpoints)
    then err integrity
    else ok (record db { checkpoints = c ∷ db.checkpoints })

-- The row that joins a job's binding with its run and its proposal.
unfoldable pub bound_run : Option ℕ → Db → Option (AgentRun × Proposal)
bound_run none db = none
bound_run (some id) db = elim (find (λ (b : Binding). b.job_id == id) db.bindings) [
  | none ↦ none
  | some b ↦ elim (find (λ (r : AgentRun). r.id == b.run_id) db.runs) [
    | none ↦ none
    | some r ↦ elim (find (λ (p : Proposal). p.id == b.proposal_id) db.proposals) [
      | none ↦ none
      | some p ↦ some (r, p)
    ]
  ]
]

-- `str(risk).lower() in {"high", "r4", "r5"}`
unfoldable pub is_high_risk : String → Bool
unfolding one_of lower
is_high_risk s = one_of (lower s) ("high" ∷ "r4" ∷ "r5" ∷ [])

abbrev run_allowed : AgentRun × Proposal → Bool
run_allowed (r, p) = r.is_running && p.is_applied && p.is_local && not (is_high_risk r.risk)

abbrev low_risk : Option Task → Bool
low_risk none = false
low_risk (some t) = one_of t.risk_level ("low" ∷ "R0" ∷ "R1" ∷ [])

-- `model_work._eligible`
unfoldable pub model_eligible : ℕ → Option ℕ → Db → Bool
model_eligible task_id job_id db = task_eligible task_id db && elim (bound_run job_id db) [
  | some rp ↦ run_allowed rp
  | none ↦ low_risk (find (λ (t : Task). t.id == task_id) db.tasks)
]

-- A job waits for the local model: its model_work row names the provider `ollama`.
unfoldable pub is_local_job : Db → Job → Bool
is_local_job db j =
    elim (find (λ (m : ModelRow). m.job_id == j.id && is_local m.request.payload) db.models) [
      | none ↦ false
      | some m ↦ true
    ]

-- `_view`, without the constant texts.
pub record View : Type 0 where
  pub job : Job
  pub completed_steps : ℕ
  pub all_steps : ℕ
  pub results : List WorkerResult
  pub calls_made : Option Bool
  pub model_state : Option ModelState
  pub reserved : ℕ
  pub accounted : ℕ

abbrev calls_of : ModelRow → Option Bool
calls_of m = elim m.state [ sending ↦ none | unknown ↦ none | _ ↦ some (is_some m.sent_at) ]

unfoldable pub view : Db → Job → View
unfolding results_of total_steps
view db j = record {
  job = j;
  completed_steps = j.next_step;
  all_steps = total_steps j.kind;
  results = results_of j.id db;
  calls_made =
      if is_model j.kind
      then elim (model_of j.id db) [ none ↦ none | some m ↦ calls_of m ]
      else some false;
  model_state = elim (model_of j.id db) [ none ↦ none | some m ↦ some m.state ];
  reserved = elim (model_of j.id db) [ none ↦ 0 | some m ↦ m.held ];
  accounted = elim (model_of j.id db) [ none ↦ 0 | some m ↦ m.charged ];
}
