-- ===== src/Approvals/Invariant.antt =====
-- src/leon_control_plane/store.py: what holds of every task and every approval.
use leon_ai_assistant.Base.{◌≡◌, ◌≢◌, true, is_some, All}
use leon_ai_assistant.Base.Keys.{Unique}
use leon_ai_assistant.Db.{done, blocked, rejected}
use leon_ai_assistant.Approvals.{TaskRow, Approval, Store, is_consumed}
use leon_ai_assistant.Approvals.Create.{is_risky}

pub record ApprovalIsValid (a : Approval) : Type 0 where
  pub counted : is_some a.consumed_at ≡ is_consumed a.status
  pub summary : a.plan.summary ≢ ""
  pub reason : a.plan.reason ≢ ""
  pub rollback : is_risky a.plan.risk_class ≡ true → a.plan.rollback_plan ≢ ""

pub record TaskIsValid (t : TaskRow) : Type 0 where
  pub result : t.status ≡ done → t.result ≢ ""
  pub verified : t.status ≡ done → t.verification_note ≢ ""
  pub dated : t.status ≡ done → is_some t.done_at ≡ true
  pub reason : t.status ≡ blocked → t.blocked_reason ≢ ""
  pub reviewed : t.status ≡ rejected → t.review_note ≢ ""

pub record StoreIsValid (s : Store) : Type 0 where
  pub task_ids : Unique (λ (t : TaskRow). t.id) s.tasks
  pub approval_ids : Unique (λ (a : Approval). a.id) s.approvals
  pub tasks : All TaskIsValid s.tasks
  pub approvals : All ApprovalIsValid s.approvals
