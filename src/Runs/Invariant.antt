-- ===== src/Runs/Invariant.antt =====
-- src/leon_control_plane/store.py: what holds of every assignment, every run and every rollback record.
use leon_ai_assistant.Base.{ℕ, ◌≡◌, ◌⊎◌, Bool, true, false, ◌||◌, not, some, is_some, All}
use leon_ai_assistant.Base.Keys.{Unique}
use leon_ai_assistant.Approvals.{blank}
use leon_ai_assistant.Approvals.Invariant.{StoreIsValid}
use leon_ai_assistant.Risk.{r1, r2}
use leon_ai_assistant.Runs.{
  parse_runner, Proposal, ProposalStatus, applied, Run, running, ReviewStatus, pending, Desk,
  run_of,
}
use leon_ai_assistant.Runs.Review.{after_review}
use leon_ai_assistant.Runs.Complete.{is_completion, same_status}

abbrev pub is_applied : ProposalStatus → Bool
is_applied applied = true
is_applied _ = false

abbrev pub is_pending : ReviewStatus → Bool
is_pending pending = true
is_pending _ = false

-- A proposal is for a local runner that may neither call out nor read secrets, and names a run exactly
-- when it is applied.
pub record ProposalIsValid (p : Proposal) : Type 0 where
  pub task : p.assignment.task_id ≡ some p.task_id
  pub runner : is_some (parse_runner p.assignment.runner_kind) ≡ true
  pub offline : p.assignment.external_calls_allowed ≡ false
  pub secretless : p.assignment.secret_values_read ≡ false
  pub linked : is_some p.applied_run ≡ is_applied p.status

-- A run was let through by the policy gate, has a date of completion exactly when it does not run, and
-- its status is that of its review once it is reviewed.
pub record RunIsValid (r : Run) : Type 0 where
  pub allowed : r.policy.execution_allowed ≡ true
  pub class : (r.policy.risk_class ≡ r1) ⊎ (r.policy.risk_class ≡ r2)
  pub completed : is_some r.completed_at ≡ not (same_status r.status running)
  pub unreviewed :
      is_pending r.review_status ≡ true
      → (same_status r.status running || is_completion r.status) ≡ true
  pub reviewed : is_pending r.review_status ≡ false → r.status ≡ after_review r.review_status
  pub noted : is_pending r.review_status ≡ false → blank r.review_note ≡ false

-- The run that an applied proposal names is there, for the same task.
abbrev pub Names : Desk → Proposal → Type 0
Names d p =
    (run : ℕ)
    → p.applied_run ≡ some run
    → (r : Run) × (run_of run d ≡ some r) × (r.task_id ≡ p.task_id)

pub record DeskIsValid (d : Desk) : Type 0 where
  pub store : StoreIsValid d.store
  pub proposal_ids : Unique (λ (p : Proposal). p.id) d.proposals
  pub run_ids : Unique (λ (r : Run). r.id) d.runs
  pub proposals : All ProposalIsValid d.proposals
  pub names : All (Names d) d.proposals
  pub runs : All RunIsValid d.runs
