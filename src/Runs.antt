-- ===== src/Runs.antt =====
-- src/leon_control_plane/store.py: assignments of agents to tasks, and the runs that they start. The rows
-- stand beside the tasks of `Approvals.Store`, whose audit log they share. Left out are the columns that
-- only copy or explain others (the cost estimate, the task's snapshot, input sources, JSON duplicates).
pub mod Roles
pub mod Rollback
pub mod Create
pub mod Complete
pub mod Review
pub mod Assign
pub mod Invariant
pub mod Cases
pub mod Walk
pub mod Leads
pub mod Rows
pub mod Keep
pub mod Links
pub mod Steps
pub mod Apply
pub mod Settle
pub mod Authorized
pub mod Final
pub mod Harmless
pub mod Samples
mod Examples
use leon_ai_assistant.Base.{
  ℕ, Bool, true, false, String, List, ◌∷◌, Option, none, some, ◌==◌, str_eq, if◌then◌else◌, map,
}
use leon_ai_assistant.Base.Rows.{find, update}
use leon_ai_assistant.Approvals.{Store, AuditEvent, record_event}
use leon_ai_assistant.Risk.Policy.{Verdict}

pub data Runner : Type 0 where
  local_mock local_ollama : Runner

unfoldable pub parse_runner : String → Option Runner
parse_runner s =
    if str_eq s "local_mock"
    then some local_mock
    else if str_eq s "local_ollama"
    then some local_ollama
    else none

-- The fields of a model route that a run stores.
pub record Route : Type 0 where
  pub provider : String
  pub route : String
  pub model : String
  pub reasoning_effort : String
  pub reason : String
  pub approval_required : Bool

-- The proposal dictionary; `task_id` is none where it is missing.
pub record Assignment : Type 0 where
  pub task_id : Option ℕ
  pub agent_role : String
  pub runner_kind : String
  pub execution_allowed : Bool
  pub external_calls_allowed : Bool
  pub secret_values_read : Bool
  pub task_type : String
  pub complexity : String
  pub risk : String
  pub privacy : String
  pub budget_mode : String
  pub route : Route
  pub allowed_actions : List String
  pub forbidden_actions : List String

pub data ProposalStatus : Type 0 where
  prepared applying applied rejected : ProposalStatus

pub record Proposal : Type 0 where
  pub id : ℕ
  pub task_id : ℕ
  pub status : ProposalStatus
  pub assignment : Assignment
  pub applied_run : Option ℕ
  pub review_note : String
  pub created_at : ℕ
  pub updated_at : ℕ
  pub applied_at : Option ℕ

pub data RunStatus : Type 0 where
  running waiting_for_review failed accepted changes_requested rejected : RunStatus

pub data ReviewStatus : Type 0 where
  pending accepted changes_requested rejected : ReviewStatus

pub data NextAction : Type 0 where
  complete_run review_run : NextAction
  task_can_move_to_review_or_done revise_output choose_new_plan : NextAction

pub record Evidence : Type 0 where
  pub kind : String
  pub summary : String

-- `confidence` is in hundredths.
pub record Run : Type 0 where
  pub id : ℕ
  pub task_id : ℕ
  pub agent_role : String
  pub role : String
  pub status : RunStatus
  pub task_type : String
  pub complexity : String
  pub risk : String
  pub privacy : String
  pub budget_mode : String
  pub route : Route
  pub allowed_actions : List String
  pub forbidden_actions : List String
  pub policy : Verdict
  pub confidence : ℕ
  pub result_summary : String
  pub evidence : List Evidence
  pub recovery : List Evidence
  pub review_status : ReviewStatus
  pub review_note : String
  pub next_action : NextAction
  pub rollback_id : Option ℕ
  pub created_at : ℕ
  pub updated_at : ℕ
  pub completed_at : Option ℕ

pub data RollbackKind : Type 0 where
  cache local_persistent code_system external_write : RollbackKind

pub record RollbackRow : Type 0 where
  pub id : ℕ
  pub kind : RollbackKind
  pub status : String
  pub risk_class : String
  pub task_id : Option ℕ
  pub target_type : String
  pub target_ref : String
  pub operation : String
  pub summary : String
  pub has_before : Bool
  pub has_after : Bool
  pub patch_snapshot : String
  pub has_tests : Bool
  pub has_audit_details : Bool
  pub deletion_supported : Bool
  pub undo_supported : Bool
  pub scrub_supported : Bool

pub record Desk : Type 0 where
  pub store : Store
  pub proposals : List Proposal
  pub runs : List Run
  pub rollbacks : List RollbackRow

-- What is outside: the secret scanner and its redaction, how an id is printed, the length of the JSON of a
-- list of evidence, and the JSON text of a verification (its items, their total count, whether some are
-- left out).
pub record Tools : Type 0 where
  pub contains_secret : String → Bool
  pub redact : String → String
  pub print_id : ℕ → String
  pub evidence_size : List Evidence → ℕ
  pub verification : ℕ → List Evidence → Option ℕ → Bool → String

abbrev pub run_of : ℕ → Desk → Option Run
run_of id d = find (λ (r : Run). r.id == id) d.runs

abbrev pub proposal_of : ℕ → Desk → Option Proposal
proposal_of id d = find (λ (p : Proposal). p.id == id) d.proposals

abbrev pub set_run : ℕ → (Run → Run) → Desk → Desk
set_run id f d = record d { runs = update (λ (r : Run). r.id == id) f d.runs }

abbrev pub set_proposal : ℕ → (Proposal → Proposal) → Desk → Desk
set_proposal id f d = record d { proposals = update (λ (p : Proposal). p.id == id) f d.proposals }

abbrev pub report : AuditEvent → Desk → Desk
report e d = record d { store = record_event e d.store }

-- `_redact_audit_value`
unfoldable pub redact_route : Tools → Route → Route
redact_route t r = record r {
  provider = t.redact r.provider;
  route = t.redact r.route;
  model = t.redact r.model;
  reasoning_effort = t.redact r.reasoning_effort;
  reason = t.redact r.reason;
}

unfoldable pub redact_assignment : Tools → Assignment → Assignment
unfolding redact_route
redact_assignment t a = record a {
  agent_role = t.redact a.agent_role;
  runner_kind = t.redact a.runner_kind;
  task_type = t.redact a.task_type;
  complexity = t.redact a.complexity;
  risk = t.redact a.risk;
  privacy = t.redact a.privacy;
  budget_mode = t.redact a.budget_mode;
  route = redact_route t a.route;
  allowed_actions = map t.redact a.allowed_actions;
  forbidden_actions = map t.redact a.forbidden_actions;
}

unfoldable pub redact_evidence : Tools → Evidence → Evidence
redact_evidence t e = record { kind = t.redact e.kind; summary = t.redact e.summary }

-- `value or default`
abbrev pub or_default : String → String → String
or_default given default = if str_eq given "" then default else given
