-- ===== src/Approvals/Samples.antt =====
-- A store with one waiting task, its pending approval, and an approval that was rejected.
use leon_ai_assistant.Base.{false, [], ◌∷◌, none, some}
use leon_ai_assistant.Db.{waiting_for_approval, active}
use leon_ai_assistant.Approvals.{TaskRow, Approval, Plan, approved, consumed, rejected, Store, Env}
use leon_ai_assistant.Approvals.Outcome.{Outcome, did, refused}
use leon_ai_assistant.Approvals.Tasks.{update_task_status}
use leon_ai_assistant.Approvals.Decide.{consume_approval, with_approval}

abbrev pub env : Env
env = record { contains_secret = λ s. false; fingerprint_of = λ p. 5; print_id = λ i. "a" }

abbrev pub plan : Plan
plan = record {
  action_type = "write";
  summary = "Deploy";
  reason = "Requested";
  affected_systems = "";
  permissions = "";
  external_effect = "";
  cost_estimate = "";
  risk_level = "high";
  risk_class = "R4";
  expected_change = "Deploy";
  rollback_plan = "Revert";
  failure_mode = "Stop";
}

abbrev pub waiting : TaskRow
waiting = record {
  id = 1;
  status = waiting_for_approval;
  blocked_reason = "";
  result = "";
  verification_note = "";
  review_note = "";
  updated_at = 10;
  done_at = none;
}

abbrev pub granted : Approval
granted = record {
  id = 1;
  task_id = some 1;
  plan = plan;
  fingerprint = 4;
  requested_by = "orchestrator";
  status = approved;
  decision_note = "";
  decided_at = some 12;
  consumed_at = none;
  expires_at = some 100;
  created_at = 10;
  updated_at = 12;
}

abbrev pub refused_one : Approval
refused_one = record granted { id = 2; task_id = none; fingerprint = 5; status = rejected }

abbrev pub used_one : Approval
used_one = record granted { id = 3; status = consumed; consumed_at = some 11 }

abbrev pub store : Store
store = record {
  tasks = waiting ∷ [];
  approvals = granted ∷ refused_one ∷ used_one ∷ [];
  required_env = [];
  audit = [];
}

abbrev store_after : Outcome Store → Store
store_after (did s) = s
store_after (refused e) = store

abbrev pub used_store : Store
used_store = store_after (consume_approval 20 1 "run log" store)

abbrev pub active_store : Store
active_store = store_after (update_task_status env 21 1 (some active) (with_approval 1) used_store)
