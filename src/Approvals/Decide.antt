-- ===== src/Approvals/Decide.antt =====
-- src/leon_control_plane/store.py: `update_approval`, `approve_pending_approval`, `consume_approval` and
-- `continue_task_after_approval`.
use Prim.Native.String.{◌++◌}
use leon_ai_assistant.Base.{
  ℕ, Bool, false, ◌&&◌, ◌||◌, not, String, Option, none, some, ◌==◌, str_eq, is_some, if◌then◌else◌,
}
use leon_ai_assistant.Db.{waiting_for_approval, active, blocked, TaskStatus}
use leon_ai_assistant.Base.Rows.{update}
use leon_ai_assistant.Approvals.{
  TaskRow, Approval, ApprovalStatus, pending, approved, rejected, expired, consumed, Store, Env,
  approval_decided, task_blocked, approval_consumed, task_of, approval_of, set_approval,
  record_event, blank, is_pending, is_approved, is_rejected, is_consumed, is_expired, unexpired,
}
use leon_ai_assistant.Approvals.Outcome.{
  Outcome, did, refused, require, or_refuse, ◌>>=◌, ◌>>◌, secret_found, unknown_task,
  unknown_approval, invalid_decision, already_closed, other_origin, not_pending, evidence_required,
  not_consumable, not_approved, no_task, not_waiting,
}
use leon_ai_assistant.Approvals.Tasks.{Change, same, update_task_status}

-- `status in {"approved", "rejected", "expired"}`
unfoldable pub parse_decision : String → Option ApprovalStatus
parse_decision s =
    if str_eq s "approved"
    then some approved
    else if str_eq s "rejected"
    then some rejected
    else if str_eq s "expired"
    then some expired
    else none

abbrev pub undeferred : String → String
undeferred s = if str_eq s "deferred" then "pending" else s

unfoldable pub decided : ℕ → ApprovalStatus → String → Approval → Approval
decided now to note a = record a {
  status = to;
  decided_at = some now;
  decision_note = note;
  updated_at = now;
}

unfoldable pub rejection : Env → ℕ → String
rejection env id = "Approval " ++ (env.print_id id ++ " rejected.")

unfoldable pub stopped : Env → ℕ → ℕ → TaskRow → TaskRow
stopped env now id t = record t {
  status = blocked;
  blocked_reason = rejection env id;
  updated_at = now;
}

-- UPDATE tasks … WHERE id = ? AND status != 'rejected'
unfoldable pub stop_task : Env → ℕ → ℕ → Option ℕ → Store → Store
unfolding stopped
stop_task env now id none s = s
stop_task env now id (some task) s = record_event (task_blocked task id) (record s {
  tasks =
      update (λ (t : TaskRow). t.id == task && not (same t.status TaskStatus.rejected))
        (stopped env now id) s.tasks;
})

unfoldable pub update_approval : Env → ℕ → ℕ → String → String → Store → Outcome Store
unfolding decided parse_decision
update_approval env now id status note s = do
  to ← or_refuse (parse_decision (undeferred status)) invalid_decision
  require (not (env.contains_secret note)) secret_found
  a ← or_refuse (approval_of id s) unknown_approval
  require (not (is_consumed a.status || is_expired a.status)) already_closed
  let s' = record_event (approval_decided id a.status to) (set_approval id (decided now to note) s)
  did (if is_rejected to then stop_task env now id a.task_id s' else s')

abbrev pub from_origin : String → String → Approval → Bool
from_origin action origin a = str_eq a.plan.action_type action && str_eq a.requested_by origin

abbrev pub live : ℕ → Approval → Bool
live now a = not (is_some a.consumed_at) && unexpired now a.expires_at

-- The rows that the UPDATE matches, besides by its id, action type and origin.
abbrev pub approvable : ℕ → Approval → Bool
approvable now a = is_pending a.status && live now a

unfoldable pub approve_pending_approval :
    Env → ℕ → ℕ → String → String → String → Store → Outcome Store
unfolding decided
approve_pending_approval env now id note action origin s = do
  require (not (env.contains_secret note)) secret_found
  a ← or_refuse (approval_of id s) other_origin
  require (from_origin action origin a) other_origin
  if is_approved a.status && live now a then did s else (do
    require (approvable now a) not_pending
    did (
        record_event (approval_decided id pending approved)
          (set_approval id (decided now approved note) s)))

unfoldable pub spent : ℕ → Approval → Approval
spent now a = record a { status = consumed; consumed_at = some now; updated_at = now }

abbrev pub consumable : ℕ → Approval → Bool
consumable now a = is_approved a.status && live now a

unfoldable pub consume_approval : ℕ → ℕ → String → Store → Outcome Store
unfolding spent
consume_approval now id evidence s = do
  require (not (blank evidence)) evidence_required
  a ← or_refuse (approval_of id s) unknown_approval
  require (consumable now a) not_consumable
  did (record_event (approval_consumed id) (set_approval id (spent now) s))

abbrev pub with_approval : ℕ → Change
with_approval id = record {
  blocked_reason = "";
  result = "";
  verification_note = "";
  review_note = "";
  approval_id = some id;
  secret_key = none;
  reopen = false;
}

-- The checks of the first transaction: the task to continue.
unfoldable pub continuable : ℕ → Store → Outcome ℕ
continuable id s = do
  a ← or_refuse (approval_of id s) unknown_approval
  require (is_approved a.status) not_approved
  task ← or_refuse a.task_id no_task
  t ← or_refuse (task_of task s) unknown_task
  require (same t.status waiting_for_approval) not_waiting
  did task

-- A refusal keeps what the transactions before it have written.
abbrev pub finished : ℕ → Outcome Store → Store → Outcome ℕ × Store
finished task (refused e) s = (refused e, s)
finished task (did s') s = (did task, s')

unfoldable pub after_consume : Env → ℕ → ℕ → ℕ → Store → Outcome Store → Outcome ℕ × Store
after_consume env later id task s (refused e) = (refused e, s)
after_consume env later id task s (did s') =
    finished task (update_task_status env later task (some active) (with_approval id) s') s'

unfoldable pub after_checks : Env → ℕ → ℕ → ℕ → String → Store → Outcome ℕ → Outcome ℕ × Store
after_checks env now later id evidence s (refused e) = (refused e, s)
after_checks env now later id evidence s (did task) =
    after_consume env later id task s (consume_approval now id evidence s)

-- The checks and two transactions, each with its own reading of the clock.
unfoldable pub continue_task_after_approval : Env → ℕ → ℕ → ℕ → String → Store → Outcome ℕ × Store
continue_task_after_approval env now later id evidence s =
    after_checks env now later id evidence s (continuable id s)
