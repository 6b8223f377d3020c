-- ===== src/Runs/Assign.antt =====
-- src/leon_control_plane/store.py: proposals to assign an agent to a task, their rejection and their
-- application. `apply_agent_assignment_proposal` runs several transactions: `check_apply` reads,
-- `begin_apply` marks the proposal, `create_agent_run` inserts the run, `mark_applied` links it, and
-- `abandon_apply` undoes the mark. The queue's answer, the clock and the explaining texts are arguments.
use leon_ai_assistant.Base.{
  ℕ, Bool, true, false, ◌&&◌, ◌||◌, not, String, List, [], ◌∷◌, Option, none, some, is_some,
  if◌then◌else◌,
}
use leon_ai_assistant.Db.{TaskStatus, done}
use leon_ai_assistant.Approvals.{
  task_of, blank, agent_assignment_proposed, agent_assignment_rejected, agent_assignment_applied,
}
use leon_ai_assistant.Approvals.Outcome.{
  Outcome, did, refused, require, or_refuse, ◌>>=◌, ◌>>◌, unknown_task, task_missing, bad_runner,
  unsafe_assignment, note_missing, secret_found, unknown_proposal, not_prepared, task_closed,
  execution_denied, no_queue, queue_refused, id_taken,
}
use leon_ai_assistant.Approvals.Tasks.{same}
use leon_ai_assistant.Runs.{
  Runner, local_mock, local_ollama, parse_runner, Assignment, Proposal, ProposalStatus, prepared,
  applying, applied, waiting_for_review, failed, Evidence, Desk, Tools, proposal_of, set_proposal,
  report, redact_assignment, or_default,
}
use leon_ai_assistant.Runs.Create.{RunArgs, is_ollama, create_agent_run}
use leon_ai_assistant.Runs.Complete.{complete_agent_run}

abbrev pub is_prepared : ProposalStatus → Bool
is_prepared prepared = true
is_prepared _ = false

abbrev pub is_applying : ProposalStatus → Bool
is_applying applying = true
is_applying _ = false

unfoldable pub fresh_proposal : ℕ → ℕ → ℕ → Assignment → Proposal
fresh_proposal now id task a = record {
  id = id;
  task_id = task;
  status = prepared;
  assignment = a;
  applied_run = none;
  review_note = "";
  created_at = now;
  updated_at = now;
  applied_at = none;
}

unfoldable pub create_agent_assignment_proposal : Tools → ℕ → ℕ → Assignment → Desk → Outcome Desk
unfolding fresh_proposal
create_agent_assignment_proposal t now id given d = do
  let a = redact_assignment t given
  task ← or_refuse a.task_id task_missing
  runner ← or_refuse (parse_runner a.runner_kind) bad_runner
  require (not (a.external_calls_allowed || a.secret_values_read)) unsafe_assignment
  row ← or_refuse (task_of task d.store) unknown_task
  require (not (is_some (proposal_of id d))) id_taken
  did (
      report (agent_assignment_proposed id)
        (record d { proposals = fresh_proposal now id task a ∷ d.proposals }))

unfoldable pub rejected_proposal : ℕ → String → Proposal → Proposal
rejected_proposal now note p = record p {
  status = ProposalStatus.rejected;
  review_note = note;
  updated_at = now;
}

unfoldable pub reject_agent_assignment_proposal : Tools → ℕ → ℕ → String → Desk → Outcome Desk
unfolding rejected_proposal
reject_agent_assignment_proposal t now id note d = do
  require (not (blank note)) note_missing
  require (not (t.contains_secret note)) secret_found
  p ← or_refuse (proposal_of id d) unknown_proposal
  require (is_prepared p.status) not_prepared
  did (report (agent_assignment_rejected id) (set_proposal id (rejected_proposal now note) d))

-- `status in {"done", "rejected"}`
abbrev pub is_terminal : TaskStatus → Bool
is_terminal s = same s done || same s TaskStatus.rejected

-- The checks before the first write.
unfoldable pub check_apply :
    Tools → String → Option (Option ℕ) → ℕ → Desk → Outcome (Runner × Proposal)
check_apply t note queue id d = do
  require (not (blank note)) note_missing
  require (not (t.contains_secret note)) secret_found
  p ← or_refuse (proposal_of id d) unknown_proposal
  require (is_prepared p.status) not_prepared
  task ← or_refuse (task_of p.task_id d.store) unknown_task
  require (not (is_terminal task.status)) task_closed
  runner ← or_refuse (parse_runner p.assignment.runner_kind) bad_runner
  require p.assignment.execution_allowed execution_denied
  require (not (p.assignment.external_calls_allowed || p.assignment.secret_values_read))
      unsafe_assignment
  require (not (is_ollama runner && not (is_some queue))) no_queue
  did (runner, p)

unfoldable pub marked : ℕ → String → Proposal → Proposal
marked now note p = record p { status = applying; review_note = note; updated_at = now }

unfoldable pub begin_apply : ℕ → String → ℕ → Desk → Outcome Desk
unfolding marked
begin_apply now note id d = do
  p ← or_refuse (proposal_of id d) unknown_proposal
  require (is_prepared p.status) not_prepared
  task ← or_refuse (task_of p.task_id d.store) task_closed
  require (not (is_terminal task.status)) task_closed
  did (set_proposal id (marked now note) d)

-- UPDATE … WHERE id = ? AND status = 'applying' AND applied_agent_run_id IS NULL
unfoldable pub unmarked : ℕ → Proposal → Proposal
unmarked now p =
    if is_applying p.status && not (is_some p.applied_run)
    then record p { status = prepared; review_note = ""; updated_at = now }
    else p

unfoldable pub abandon_apply : ℕ → ℕ → Desk → Desk
unfolding unmarked
abandon_apply now id d = set_proposal id (unmarked now) d

unfoldable pub run_args : ℕ → Runner → Assignment → RunArgs
run_args task runner a = record {
  task_id = task;
  agent_role = or_default a.agent_role "Mock Builder Agent";
  task_type = or_default a.task_type "documentation";
  complexity = or_default a.complexity "medium";
  risk = or_default a.risk "medium";
  privacy = or_default a.privacy "normal";
  budget_mode = or_default a.budget_mode "balanced";
  route = a.route;
  allowed_actions = a.allowed_actions;
  forbidden_actions = a.forbidden_actions;
  runner = runner;
}

unfoldable pub create_run_of : Tools → ℕ → ℕ → ℕ → Runner → Assignment → Desk → Outcome Desk
unfolding run_args
create_run_of t now run rollback runner a d = do
  task ← or_refuse a.task_id task_missing
  create_agent_run t now run rollback (run_args task runner a) d

-- UPDATE … WHERE id = ? AND status = 'applying'
unfoldable pub linked : ℕ → ℕ → String → Proposal → Proposal
linked now run note p =
    if is_applying p.status
    then record p {
      status = applied;
      applied_run = some run;
      review_note = note;
      updated_at = now;
      applied_at = some now;
    }
    else p

unfoldable pub mark_applied : ℕ → ℕ → ℕ → String → Desk → Desk
unfolding linked
mark_applied now run id note d =
    report (agent_assignment_applied id run) (set_proposal id (linked now run note) d)

pub data Applied : Type 0 where
  waits_for_review : ℕ → Applied
  is_queued : ℕ → ℕ → Applied

-- A call that raises may have written before.
abbrev pub or_raise : Applied → Outcome Desk → Desk → Outcome Applied × Desk
or_raise answer (refused e) d = (refused e, d)
or_raise answer (did d') d = (did answer, d')

abbrev pub raise_after : Outcome Desk → Desk → Outcome Applied × Desk
raise_after (refused e) d = (refused e, d)
raise_after (did d') d = (refused queue_refused, d')

-- The texts of the run's result.
pub record Texts : Type 0 where
  pub summary : String
  pub evidence : List Evidence

unfoldable pub start_work :
    Tools → ℕ → ℕ → Texts → Option (Option ℕ) → Runner → Desk → Outcome Applied × Desk
start_work t now run x queue local_mock d =
    or_raise (waits_for_review run)
      (complete_agent_run t now run x.summary x.evidence waiting_for_review [] d) d
start_work t now run x (some (some job)) local_ollama d = (did (is_queued run job), d)
start_work t now run x (some none) local_ollama d =
    raise_after
      (complete_agent_run t now run "Local agent work could not be queued." x.evidence failed
        (record {
          kind = "create_new_assignment";
          summary = "Check local model configuration and create a new assignment proposal.";
        }
          ∷ [])
        d)
      d
start_work t now run x none local_ollama d = (refused no_queue, d)

-- The call after each of its transactions, from that transaction's outcome.
module _ (t : Tools) (now run rollback id : ℕ) (note : String) (x : Texts)
    (queue : Option (Option ℕ)) where
  unfoldable pub after_create : Runner → Desk → Outcome Desk → Outcome Applied × Desk
  after_create runner d (refused e) = (refused e, abandon_apply now id d)
  after_create runner d (did d') =
      start_work t now run x queue runner (mark_applied now run id note d')

  unfoldable pub after_begin : Runner → Proposal → Desk → Outcome Desk → Outcome Applied × Desk
  after_begin runner p d (refused e) = (refused e, d)
  after_begin runner p d (did d') =
      after_create runner d' (create_run_of t now run rollback runner p.assignment d')

  unfoldable pub after_check : Desk → Outcome (Runner × Proposal) → Outcome Applied × Desk
  after_check d (refused e) = (refused e, d)
  after_check d (did (runner, p)) = after_begin runner p d (begin_apply now note id d)

  unfoldable pub apply_agent_assignment_proposal : Desk → Outcome Applied × Desk
  apply_agent_assignment_proposal d = after_check d (check_apply t note queue id d)
