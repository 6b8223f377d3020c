-- ===== src/Work/Samples.antt =====
-- A small queue for the examples: one task, one waiting job and one that failed before.
use leon_ai_assistant.Routing.Samples.{policy, print}
use leon_ai_assistant.Base.{true, false, [], ◌∷◌, none, some}
use leon_ai_assistant.Db.{
  Db, Task, active, Job, python_syntax_check, queued, failed, no_error, check_failed, WorkerResult,
  Result, ok, err,
}
use leon_ai_assistant.Model.{Env, LocalConfig}
use leon_ai_assistant.Work.Claim.{Claim, claim}
use leon_ai_assistant.Work.Checkpoints.{checkpoint}
use leon_ai_assistant.Work.Enqueue.{enqueue, enqueue_agent_run}

abbrev pub env : Env
env = record {
  contains_secret = λ s. false;
  routing = policy;
  print = print;
  digest = λ a. a.max_cost_microusd;
  today = 739000;
}

abbrev pub task_one : Task
task_one = record { id = 1; status = active; approval_required = false; risk_level = "low" }

abbrev pub job_one : Job
job_one = record {
  id = 7;
  request_id = 70;
  task_id = 1;
  kind = python_syntax_check;
  status = queued;
  next_step = 0;
  attempts = 0;
  lease_token = none;
  lease_until = none;
  error = no_error;
  created_at = 100;
  updated_at = 100;
}

abbrev pub job_two : Job
job_two = record job_one {
  id = 8;
  request_id = 80;
  status = failed;
  error = check_failed;
  created_at = 90;
}

abbrev pub queue : Db
queue = record {
  tasks = task_one ∷ [];
  jobs = job_one ∷ job_two ∷ [];
  checkpoints = [];
  models = [];
  runs = [];
  proposals = [];
  bindings = [];
  chat_jobs = [];
  audit = [];
}

abbrev pub claim_one : Claim
claim_one = record {
  id = 7;
  task_id = 1;
  step = 0;
  kind = python_syntax_check;
  token = 55;
  results = [];
}

abbrev pub claimed_queue : Db
claimed_queue = (claim 120 55 true queue).1

abbrev pub passed_result : WorkerResult
passed_result = record {
  ok = some true;
  provider_calls_made = some false;
  retry_allowed = false;
  accounted = 0;
  json = "{}";
}

abbrev pub db_after {ℓ} : {A : Type ℓ} → Result (A × Db) → Db
db_after (ok r) = r.1
db_after (err e) = queue

abbrev pub committed_queue : Db
committed_queue = db_after (checkpoint env 130 claim_one passed_result claimed_queue)

abbrev pub local : LocalConfig
local = record {
  enabled = true;
  host = "127.0.0.1";
  port = 11434;
  model = "qwen3";
  num_ctx = 4096;
  timeout_seconds = 60;
  max_temp_c = 80;
  gpu_priority = "background";
}

abbrev pub longer_queue : Db
longer_queue = db_after (enqueue env local 150 9 1 (some 90) (some python_syntax_check) none queue)

-- A running agent run with an applied local assignment.
abbrev pub agent_queue : Db
agent_queue = record queue {
  runs = record { id = 3; task_id = 1; is_running = true; risk = "low" } ∷ [];
  proposals =
      record { id = 4; task_id = 1; is_applied = true; is_local = true; applied_run = some 3 } ∷ [];
}

abbrev pub bound_queue : Db
bound_queue = db_after (enqueue_agent_run env local 150 9 90 1 3 4 "summarize" 64 agent_queue)

-- A second waiting job, of a chat message, enqueued later.
abbrev pub chat_job : Job
chat_job = record job_one { id = 9; request_id = 90; created_at = 140 }

abbrev pub chat_queue : Db
chat_queue = record queue { jobs = chat_job ∷ job_one ∷ []; chat_jobs = 9 ∷ [] }

abbrev pub chat_claim : Claim
chat_claim = record claim_one { id = 9 }
