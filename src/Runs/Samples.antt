-- ===== src/Runs/Samples.antt =====
-- A desk with one planned task, a prepared assignment and a run that waits for its review.
use leon_ai_assistant.Base.{true, false, [], ◌∷◌, none, some}
use leon_ai_assistant.Db.{planned}
use leon_ai_assistant.Approvals.{TaskRow, Store}
use leon_ai_assistant.Risk.{r1, low}
use leon_ai_assistant.Risk.{autonomous, not_required}
use leon_ai_assistant.Risk.Policy.{Verdict}
use leon_ai_assistant.Runs.{
  Route, Assignment, Proposal, prepared, waiting_for_review, Run, pending, review_run, Desk, Tools,
}
use leon_ai_assistant.Runs.Assign.{Texts}

abbrev pub tools : Tools
tools = record {
  contains_secret = λ s. false;
  redact = λ s. s;
  print_id = λ i. "a";
  evidence_size = λ e. 2;
  verification = λ i e n cut. "verified";
}

abbrev pub route : Route
route = record {
  provider = "ollama";
  route = "local";
  model = "m";
  reasoning_effort = "low";
  reason = "";
  approval_required = false;
}

abbrev pub assignment : Assignment
assignment = record {
  task_id = some 1;
  agent_role = "Backend agent";
  runner_kind = "local_mock";
  execution_allowed = true;
  external_calls_allowed = false;
  secret_values_read = false;
  task_type = "documentation";
  complexity = "low";
  risk = "low";
  privacy = "normal";
  budget_mode = "balanced";
  route = route;
  allowed_actions = "summarize" ∷ [];
  forbidden_actions = [];
}

abbrev pub proposal : Proposal
proposal = record {
  id = 7;
  task_id = 1;
  status = prepared;
  assignment = assignment;
  applied_run = none;
  review_note = "";
  created_at = 1;
  updated_at = 1;
  applied_at = none;
}

abbrev pub verdict : Verdict
verdict = record {
  risk_class = r1;
  coarse = low;
  decision = autonomous;
  execution_allowed = true;
  requires_review = false;
  approval_required = false;
  approval_first_required = false;
  approval_state = not_required;
  explicit_approval_present = false;
  hard_blocked = false;
}

abbrev pub run : Run
run = record {
  id = 3;
  task_id = 1;
  agent_role = "Planner";
  role = "Planner";
  status = waiting_for_review;
  task_type = "documentation";
  complexity = "low";
  risk = "low";
  privacy = "normal";
  budget_mode = "balanced";
  route = route;
  allowed_actions = [];
  forbidden_actions = [];
  policy = verdict;
  confidence = 72;
  result_summary = "Plan";
  evidence = [];
  recovery = [];
  review_status = pending;
  review_note = "";
  next_action = review_run;
  rollback_id = none;
  created_at = 1;
  updated_at = 2;
  completed_at = some 2;
}

abbrev pub task : TaskRow
task = record {
  id = 1;
  status = planned;
  blocked_reason = "";
  result = "";
  verification_note = "";
  review_note = "";
  updated_at = 1;
  done_at = none;
}

abbrev pub store : Store
store = record { tasks = task ∷ []; approvals = []; required_env = []; audit = [] }

abbrev pub desk : Desk
desk = record { store = store; proposals = proposal ∷ []; runs = run ∷ []; rollbacks = [] }

abbrev pub texts : Texts
texts = record {
  summary = "Done";
  evidence = record { kind = "safety"; summary = "No calls." } ∷ [];
}
