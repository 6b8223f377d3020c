-- ===== src/Approvals/Tasks.antt =====
-- src/leon_control_plane/store.py: `update_task_status` and `_validate_task_transition`.
use leon_ai_assistant.Base.{
  ℕ, Bool, true, false, ◌&&◌, ◌||◌, not, String, Option, none, some, ◌==◌, str_eq, if◌then◌else◌,
}
use leon_ai_assistant.Base.Text.{one_of}
use leon_ai_assistant.Db.{
  TaskStatus, new, planned, active, waiting_for_approval, waiting_for_secret, waiting_for_user,
  blocked, review, done, rejected,
}
use leon_ai_assistant.Approvals.{
  TaskRow, Approval, ApprovalStatus, Store, Env, AuditEvent, task_reopened, task_status_changed,
  task_of, approval_of, set_task, record_event, blank, is_pending, is_consumed,
}
use leon_ai_assistant.Approvals.Outcome.{
  Outcome, did, require, or_refuse, ◌>>=◌, ◌>>◌, Refusal, invalid_status, secret_found,
  unknown_task, invalid_transition, reopen_required, approval_required, consumed_required,
  other_task, done_incomplete, reason_required, note_required, pending_required, key_required,
  unknown_key,
}

-- BASELINE_TRANSITIONS
unfoldable pub baseline : TaskStatus → TaskStatus → Bool
baseline new planned = true
baseline planned active = true
baseline planned waiting_for_approval = true
baseline active waiting_for_approval = true
baseline active waiting_for_secret = true
baseline active waiting_for_user = true
baseline active blocked = true
baseline active review = true
baseline review done = true
baseline review rejected = true
baseline blocked active = true
baseline waiting_for_approval active = true
baseline waiting_for_approval blocked = true
baseline waiting_for_secret active = true
baseline waiting_for_user active = true
baseline done planned = true
baseline rejected planned = true
baseline _ _ = false

abbrev index : TaskStatus → ℕ
index new = 0
index planned = 1
index active = 2
index waiting_for_approval = 3
index waiting_for_secret = 4
index waiting_for_user = 5
index blocked = 6
index review = 7
index done = 8
index rejected = 9

abbrev pub same : TaskStatus → TaskStatus → Bool
same a b = index a == index b

-- The optional arguments of `update_task_status`.
pub record Change : Type 0 where
  pub blocked_reason : String
  pub result : String
  pub verification_note : String
  pub review_note : String
  pub approval_id : Option ℕ
  pub secret_key : Option String
  pub reopen : Bool

-- `not approval["task_id"] or approval["task_id"] == task_id`
abbrev pub serves : ℕ → Option ℕ → Bool
serves task none = true
serves task (some t) = t == task

abbrev has_status : (ApprovalStatus → Bool) → Option Approval → Bool
has_status p none = false
has_status p (some a) = p a.status

abbrev serves_task : ℕ → Option Approval → Bool
serves_task task none = false
serves_task task (some a) = serves task a.task_id

-- The approval that a gate asks for: given, in the state wanted, and not another task's.
unfoldable pub check_approval :
    (ApprovalStatus → Bool) → Refusal → ℕ → Option ℕ → Store → Outcome (Unit {0})
check_approval want wrong task given s = do
  id ← or_refuse given approval_required
  require (has_status want (approval_of id s)) wrong
  require (serves_task task (approval_of id s)) other_task

abbrev when : Bool → Outcome (Unit {0}) → Outcome (Unit {0})
when b m = if b then m else did tt

abbrev check_key : Option String → Store → Outcome (Unit {0})
check_key given s = do
  key ← or_refuse given key_required
  require (one_of key s.required_env) unknown_key

unfoldable pub checked : ℕ → TaskStatus → TaskStatus → Change → Store → Outcome (Unit {0})
checked task old to c s = do
  require (baseline old to) invalid_transition
  require (not ((same old done || same old rejected) && same to planned && not c.reopen))
      reopen_required
  when (same old waiting_for_approval && same to active)
      (check_approval is_consumed consumed_required task c.approval_id s)
  require (not (same to done && (blank c.result || blank c.verification_note))) done_incomplete
  require (not (same to blocked && blank c.blocked_reason)) reason_required
  require (not (same to rejected && blank c.review_note)) note_required
  when (same to waiting_for_approval)
      (check_approval is_pending pending_required task c.approval_id s)
  when (same to waiting_for_secret) (check_key c.secret_key s)

-- `_validate_task_transition`
unfoldable pub validate_task_transition :
    ℕ → TaskStatus → TaskStatus → Change → Store → Outcome (Unit {0})
validate_task_transition task old to c s = if same old to then did tt else checked task old to c s

-- `CASE WHEN ? != '' THEN ? ELSE old END`
abbrev or_old : String → String → String
or_old given old = if str_eq given "" then old else given

unfoldable pub changed : ℕ → TaskStatus → Change → TaskRow → TaskRow
changed now to c t = record t {
  status = to;
  blocked_reason = or_old c.blocked_reason t.blocked_reason;
  result = or_old c.result t.result;
  verification_note = or_old c.verification_note t.verification_note;
  review_note = or_old c.review_note t.review_note;
  updated_at = now;
  done_at = if same to done then some now else t.done_at;
}

abbrev pub task_event : ℕ → TaskStatus → TaskStatus → AuditEvent
task_event id old to =
    if (same old done || same old rejected) && same to planned
    then task_reopened id old to
    else task_status_changed id old to

-- `status` is none for a text that names no status.
unfoldable pub update_task_status : Env → ℕ → ℕ → Option TaskStatus → Change → Store → Outcome Store
unfolding changed
update_task_status env now id status c s = do
  to ← or_refuse status invalid_status
  require (not (env.contains_secret c.blocked_reason)) secret_found
  require (not (env.contains_secret c.result)) secret_found
  require (not (env.contains_secret c.verification_note)) secret_found
  require (not (env.contains_secret c.review_note)) secret_found
  t ← or_refuse (task_of id s) unknown_task
  validate_task_transition id t.status to c s
  did (record_event (task_event id t.status to) (set_task id (changed now to c) s))
