-- ===== src/Runs/Create.antt =====
-- src/leon_control_plane/store.py: `create_agent_run`, behind the policy gate.
use leon_ai_assistant.Base.{
  ℕ, Bool, true, false, ◌&&◌, not, String, List, [], ◌∷◌, none, some, is_some, map,
}
use Prim.Native.String.{◌++◌}
use leon_ai_assistant.Base.Text.{lower, one_of}
use leon_ai_assistant.Approvals.{task_of, agent_run_started}
use leon_ai_assistant.Approvals.Outcome.{
  Outcome, did, require, or_refuse, ◌>>=◌, ◌>>◌, unknown_task, risk_too_high, policy_denied,
  id_taken,
}
use leon_ai_assistant.Risk.{no_metadata}
use leon_ai_assistant.Risk.Policy.{Call, Verdict, evaluate_action_policy, action_call}
use leon_ai_assistant.Runs.{
  Runner, local_mock, local_ollama, Route, Run, running, pending, complete_run, cache, RollbackRow,
  Desk, Tools, run_of, report, redact_route,
}
use leon_ai_assistant.Runs.Roles.{normalize_agent_run_role}
use leon_ai_assistant.Runs.Rollback.{insert_rollback_record}

-- The keyword arguments of `create_agent_run`.
pub record RunArgs : Type 0 where
  pub task_id : ℕ
  pub agent_role : String
  pub task_type : String
  pub complexity : String
  pub risk : String
  pub privacy : String
  pub budget_mode : String
  pub route : Route
  pub allowed_actions : List String
  pub forbidden_actions : List String
  pub runner : Runner

abbrev pub is_ollama : Runner → Bool
is_ollama local_ollama = true
is_ollama local_mock = false

abbrev pub action_of : Runner → String
action_of local_ollama = "local_text_agent_run"
action_of local_mock = "local_mock_agent_run"

-- The call that asks the policy gate; the redacted actions are its metadata.
unfoldable pub gate_call : Runner → List String → Call
gate_call runner actions = record (action_call (action_of runner)) {
  requested_scope = action_of runner;
  metadata = record no_metadata { allowed_actions = actions };
}

-- `str(risk).lower() in {"high", "r4", "r5"}`
unfoldable pub too_risky : Runner → String → Bool
too_risky runner risk = is_ollama runner && one_of (lower risk) ("high" ∷ "r4" ∷ "r5" ∷ [])

unfoldable pub fresh_run : Tools → ℕ → ℕ → ℕ → RunArgs → Verdict → Run
fresh_run t now id rollback a gate = record {
  id = id;
  task_id = a.task_id;
  agent_role = a.agent_role;
  role = normalize_agent_run_role a.agent_role;
  status = running;
  task_type = a.task_type;
  complexity = a.complexity;
  risk = a.risk;
  privacy = a.privacy;
  budget_mode = a.budget_mode;
  route = redact_route t a.route;
  allowed_actions = map t.redact a.allowed_actions;
  forbidden_actions = map t.redact a.forbidden_actions;
  policy = gate;
  confidence = 0;
  result_summary = "";
  evidence = [];
  recovery = [];
  review_status = pending;
  review_note = "";
  next_action = complete_run;
  rollback_id = some rollback;
  created_at = now;
  updated_at = now;
  completed_at = none;
}

abbrev pub runner_name : Runner → String
runner_name local_ollama = "local_ollama"
runner_name local_mock = "local_mock"

abbrev pub run_rollback : Tools → ℕ → ℕ → RunArgs → RollbackRow
run_rollback t id run a = record {
  id = id;
  kind = cache;
  status = "delete_supported";
  risk_class = "R1";
  task_id = some a.task_id;
  target_type = "agent_run_task_packet";
  target_ref = t.print_id run;
  operation = "delete";
  summary =
      runner_name a.runner
      ++ " run stores only temporary task packet/output state and can be deleted with the run record.";
  has_before = false;
  has_after = false;
  patch_snapshot = "";
  has_tests = false;
  has_audit_details = false;
  deletion_supported = true;
  undo_supported = false;
  scrub_supported = false;
}

-- The policy's ValueError for an unknown class does not occur: no class is given.
unfoldable pub create_agent_run : Tools → ℕ → ℕ → ℕ → RunArgs → Desk → Outcome Desk
unfolding too_risky gate_call fresh_run
create_agent_run t now id rollback a d = do
  require (not (too_risky a.runner a.risk)) risk_too_high
  gate ←
      or_refuse (evaluate_action_policy (gate_call a.runner (map t.redact a.allowed_actions)))
        policy_denied
  require gate.execution_allowed policy_denied
  task ← or_refuse (task_of a.task_id d.store) unknown_task
  require (not (is_some (run_of id d))) id_taken
  rollbacks ← insert_rollback_record t (run_rollback t rollback id a) d.rollbacks
  did (
      report (agent_run_started id)
        (record d { runs = fresh_run t now id rollback a gate ∷ d.runs; rollbacks = rollbacks }))
