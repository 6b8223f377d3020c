-- ===== src/Work/Enqueue.antt =====
-- src/leon_control_plane/work_queue.py: `enqueue` and `enqueue_agent_run`.
use leon_ai_assistant.Base.{
  ℕ, Bool, true, false, ◌&&◌, ◌||◌, not, String, Option, none, some, ◌==◌, leb, is_some,
}
use leon_ai_assistant.Base.Rows.{find}
use leon_ai_assistant.Db.{
  Db, Job, Kind, openai_text, queued, no_error, Approved, ModelRow, approved, Binding, AgentRun,
  Proposal, Result, ok, err, require, or_fault, ◌>>=◌, ◌>>◌, unsupported_work, bad_uuid,
  bound_to_other_work, bound_to_other_text, task_not_eligible, needs_low_risk, queue_full,
  other_run, run_ineligible, high_risk_run, not_authorized, not_local, missing_request, unknown_job,
  job_of, log, work, task_eligible, model_of, is_local,
}
use leon_ai_assistant.Model.{Env, LocalConfig, Details, prepare, same_payload}
use leon_ai_assistant.Work.{
  View, view, is_model, open_jobs, max_open_jobs, insert_job, insert_model, insert_binding,
  model_eligible, is_high_risk,
}

-- Equality of two requests' JSON texts, which is that of their fields.
unfoldable pub same_approved : Approved → Approved → Bool
unfolding same_payload
same_approved a b = same_payload a.payload b.payload && a.max_cost_microusd == b.max_cost_microusd

-- `model_work.same_request`
unfoldable pub same_request : ℕ → Approved → Db → Bool
unfolding same_approved
same_request id a db = elim (model_of id db) [ none ↦ false | some m ↦ same_approved m.request a ]

-- `prepare` for a model job; its request may be missing, which `prepare` refuses.
unfoldable pub prepared : Env → LocalConfig → Bool → Option Details → Result (Option Approved)
prepared env local false d = ok none
prepared env local true none = err missing_request
prepared env local true (some d) = do a ← prepare env local false d; ok (some a)

unfoldable pub fresh_job : ℕ → ℕ → ℕ → ℕ → Kind → Job
fresh_job now id request_id task_id kind = record {
  id = id;
  request_id = request_id;
  task_id = task_id;
  kind = kind;
  status = queued;
  next_step = 0;
  attempts = 0;
  lease_token = none;
  lease_until = none;
  error = no_error;
  created_at = now;
  updated_at = now;
}

-- `model_work.insert`
unfoldable pub fresh_model : Env → ℕ → Approved → ModelRow
fresh_model env id a = record {
  job_id = id;
  request = a;
  digest = env.digest a;
  state = approved;
  held = 0;
  charged = 0;
  sent_at = none;
  result = none;
}

abbrev same_kind : Kind → Kind → Bool
same_kind a b = is_model a && is_model b || not (is_model a) && not (is_model b)

-- A known request: the job that it made, if it asks for the same work.
unfoldable pub repeated : Option Approved → ℕ → Kind → Job → Db → Result (View × Db)
unfolding same_request
repeated a task_id kind existing db = do
  require (existing.task_id == task_id && same_kind existing.kind kind) bound_to_other_work
  require (elim a [ none ↦ true | some b ↦ same_request existing.id b db ]) bound_to_other_text
  ok (view db existing, db)

unfoldable pub add_model : Env → ℕ → Option Approved → Db → Result Db
unfolding fresh_model
add_model env id none db = ok db
add_model env id (some a) db = insert_model (fresh_model env id a) db

-- A new request.
unfoldable pub admit : Env → Option Approved → Job → Db → Result (View × Db)
unfolding add_model
admit env a job db = do
  require (task_eligible job.task_id db) task_not_eligible
  require (elim a [ none ↦ true | some b ↦ model_eligible job.task_id none db ]) needs_low_risk
  require (not (leb max_open_jobs (open_jobs db))) queue_full
  db₁ ← insert_job job db
  db₂ ← add_model env job.id a db₁
  let db₃ = log (work queued job.id) db₂
  ok (view db₃ job, db₃)

-- `kind` is none for a text that names no kind; `request_id` is what `uuid.UUID` makes of the
-- caller's text, or none where that fails.
unfoldable pub enqueue :
    Env
    → LocalConfig
    → ℕ
    → ℕ
    → ℕ
    → Option ℕ
    → Option Kind
    → Option Details
    → Db
    → Result (View × Db)
unfolding prepared fresh_job
enqueue env local now new_id task_id request_id none details db = err unsupported_work
enqueue env local now new_id task_id request_id (some kind) details db = do
  require (is_model kind || not (is_some details)) unsupported_work
  a ← prepared env local (is_model kind) details
  rid ← or_fault request_id bad_uuid
  elim (find (λ (j : Job). j.request_id == rid) db.jobs) [
    | some existing ↦ repeated a task_id kind existing db
    | none ↦ admit env a (fresh_job now new_id rid task_id kind) db
  ]

abbrev is_bound_to : Option ℕ → ℕ → Bool
is_bound_to none r = false
is_bound_to (some q) r = q == r

abbrev run_ready : ℕ → Option AgentRun → Bool
run_ready task_id none = false
run_ready task_id (some r) = r.task_id == task_id && r.is_running

abbrev run_high : Option AgentRun → Bool
run_high none = false
run_high (some r) = is_high_risk r.risk

abbrev authorizes : ℕ → ℕ → Option Proposal → Bool
authorizes task_id run_id none = false
authorizes task_id run_id (some p) =
    p.task_id == task_id && p.is_applied && p.is_local && is_bound_to p.applied_run run_id

abbrev pub run_details : String → ℕ → Details
run_details prompt limit = record {
  prompt = prompt;
  max_output_tokens = limit;
  max_cost_microusd = 1;
  approve_external_text = true;
  provider = none;
}

abbrev pub bound : Job → ℕ → ℕ → Binding
bound job run_id proposal_id = record {
  job_id = job.id;
  run_id = run_id;
  proposal_id = proposal_id;
  is_synced = false;
}

-- The part for a proposal that has no job yet.
unfoldable pub bind_run : Env → Approved → Job → ℕ → ℕ → Db → Result (View × Db)
bind_run env a job run_id proposal_id db = do
  let run = find (λ (r : AgentRun). r.id == run_id) db.runs
  require (run_ready job.task_id run) run_ineligible
  require (not (run_high run)) high_risk_run
  require
      (authorizes job.task_id run_id (find (λ (p : Proposal). p.id == proposal_id) db.proposals))
      not_authorized
  require (task_eligible job.task_id db) task_not_eligible
  require (not (leb max_open_jobs (open_jobs db))) queue_full
  db₁ ← insert_job job db
  db₂ ← insert_model (fresh_model env job.id a) db₁
  db₃ ← insert_binding (bound job run_id proposal_id) db₂
  let db₄ = log (work queued job.id) db₃
  ok (view db₄ job, db₄)

-- `request_id` is the UUID that is derived from the proposal's id.
unfoldable pub enqueue_agent_run :
    Env → LocalConfig → ℕ → ℕ → ℕ → ℕ → ℕ → ℕ → String → ℕ → Db → Result (View × Db)
unfolding fresh_job
enqueue_agent_run env local now new_id request_id task_id run_id proposal_id prompt limit db = do
  a ← prepare env local false (run_details prompt limit)
  require (is_local a.payload) not_local
  elim (find (λ (b : Binding). b.proposal_id == proposal_id) db.bindings) [
    | some b ↦ (do
      require (b.run_id == run_id) other_run
      row ← or_fault (job_of b.job_id db) unknown_job
      ok (view db row, db))
    | none ↦
        bind_run env a (fresh_job now new_id request_id task_id openai_text) run_id proposal_id db
  ]
