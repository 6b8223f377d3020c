-- ===== src/Approvals.antt =====
-- src/leon_control_plane/store.py: approvals and the gated life of a task. An operation is a
-- transaction: a function from the store to a result and the new store; a refusal rolls back.
-- Ids and times are numbers; the clock's reading is an argument. `Env` holds what is outside: the
-- secret scanner, SHA-256 of a plan, and how an id is printed.
pub mod Outcome
pub mod Tasks
pub mod Create
pub mod Decide
pub mod Names
pub mod Invariant
pub mod Rows
pub mod Keep
pub mod Creation
pub mod NewTask
pub mod Acts
pub mod Gate
pub mod Continue
pub mod Samples
mod Examples
use leon_ai_assistant.Base.{
  ℕ, Bool, true, false, ◌&&◌, ◌||◌, not, String, List, ◌∷◌, Option, none, some, ◌==◌, ltb, str_eq,
  is_some, if◌then◌else◌,
}
use leon_ai_assistant.Base.Text.{strip}
use leon_ai_assistant.Base.Rows.{find, update}
use leon_ai_assistant.Db.{TaskStatus}

pub record TaskRow : Type 0 where
  pub id : ℕ
  pub status : TaskStatus
  pub blocked_reason : String
  pub result : String
  pub verification_note : String
  pub review_note : String
  pub updated_at : ℕ
  pub done_at : Option ℕ

pub data ApprovalStatus : Type 0 where
  pending approved rejected expired consumed : ApprovalStatus

-- The texts of which the plan's fingerprint is made.
pub record Plan : Type 0 where
  pub action_type : String
  pub summary : String
  pub reason : String
  pub affected_systems : String
  pub permissions : String
  pub external_effect : String
  pub cost_estimate : String
  pub risk_level : String
  pub risk_class : String
  pub expected_change : String
  pub rollback_plan : String
  pub failure_mode : String

pub record Approval : Type 0 where
  pub id : ℕ
  pub task_id : Option ℕ
  pub plan : Plan
  pub fingerprint : ℕ
  pub requested_by : String
  pub status : ApprovalStatus
  pub decision_note : String
  pub decided_at : Option ℕ
  pub consumed_at : Option ℕ
  pub expires_at : Option ℕ
  pub created_at : ℕ
  pub updated_at : ℕ

pub data AuditEvent : Type 0 where
  task_status_changed task_reopened : ℕ → TaskStatus → TaskStatus → AuditEvent
  approval_decided : ℕ → ApprovalStatus → ApprovalStatus → AuditEvent
  task_blocked : ℕ → ℕ → AuditEvent
  task_created : ℕ → AuditEvent
  approval_created approval_consumed : ℕ → AuditEvent
  agent_assignment_proposed agent_assignment_rejected : ℕ → AuditEvent
  agent_assignment_applied : ℕ → ℕ → AuditEvent
  agent_run_started agent_run_completed agent_run_reviewed : ℕ → AuditEvent

pub record Store : Type 0 where
  pub tasks : List TaskRow
  pub approvals : List Approval
  pub required_env : List String
  pub audit : List AuditEvent

pub record Env : Type 0 where
  pub contains_secret : String → Bool
  pub fingerprint_of : Plan → ℕ
  pub print_id : ℕ → String

abbrev pub task_of : ℕ → Store → Option TaskRow
task_of id s = find (λ (t : TaskRow). t.id == id) s.tasks

abbrev pub approval_of : ℕ → Store → Option Approval
approval_of id s = find (λ (a : Approval). a.id == id) s.approvals

abbrev pub set_task : ℕ → (TaskRow → TaskRow) → Store → Store
set_task id f s = record s { tasks = update (λ (t : TaskRow). t.id == id) f s.tasks }

abbrev pub set_approval : ℕ → (Approval → Approval) → Store → Store
set_approval id f s = record s { approvals = update (λ (a : Approval). a.id == id) f s.approvals }

abbrev pub record_event : AuditEvent → Store → Store
record_event e s = record s { audit = e ∷ s.audit }

-- `not value.strip()`
unfoldable pub blank : String → Bool
unfolding strip
blank s = str_eq (strip s) ""

abbrev pub is_pending : ApprovalStatus → Bool
is_pending pending = true
is_pending _ = false

abbrev pub is_approved : ApprovalStatus → Bool
is_approved approved = true
is_approved _ = false

abbrev pub is_rejected : ApprovalStatus → Bool
is_rejected rejected = true
is_rejected _ = false

abbrev pub is_expired : ApprovalStatus → Bool
is_expired expired = true
is_expired _ = false

abbrev pub is_consumed : ApprovalStatus → Bool
is_consumed consumed = true
is_consumed _ = false

-- `expires_at IS NULL OR datetime(expires_at) > datetime(?)`
abbrev pub unexpired : ℕ → Option ℕ → Bool
unexpired now none = true
unexpired now (some t) = ltb now t
