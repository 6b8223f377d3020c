-- ===== src/Approvals/Rows.antt =====
-- src/leon_control_plane/store.py: the rows that the operations write, against what holds of every row.
use text.Mathlib.TextLemmas.{append-ne-nil_of_right_ne-nil}
use leon_ai_assistant.Base.{
  ℕ, ◌≡◌, ◌≢◌, refl, subst, ◌∙◌, ◌⊎◌, inl, inr, Bool, true, false, ◌&&◌, ◌||◌, not, Option, none,
  some, arith, String, str_eq, eq_iff, ◌==◌, if◌then◌else◌,
}
use leon_ai_assistant.Base.Text.{strip}
use leon_ai_assistant.Base.Rows.{update-All}
use leon_ai_assistant.Base.Keys.{update-by_key, Unique-update}
use leon_ai_assistant.Db.{TaskStatus, done, blocked}
use leon_ai_assistant.Approvals.{
  TaskRow, Approval, ApprovalStatus, Store, Env, AuditEvent, task_of, approval_of, set_task,
  set_approval, record_event, blank, is_consumed,
}
use leon_ai_assistant.Approvals.Tasks.{Change, same, changed}
use leon_ai_assistant.Approvals.Decide.{decided, rejection, stopped, stop_task, spent}
use leon_ai_assistant.Approvals.Invariant.{ApprovalIsValid, TaskIsValid, StoreIsValid}

blank-of-empty : (x : String) → blank x ≡ false → x ≢ ""
unfolding blank strip
blank-of-empty x h e = cc (rw e at h)

same-eq : (a b : TaskStatus) → same a b ≡ true → a ≡ b
same-eq a b h = ground arith

same_refl : (a : TaskStatus) → same a a ≡ true
same_refl a = ground arith

or_old-ne : (g o : String) → (o ≢ "") ⊎ (g ≢ "") → (if str_eq g "" then o else g) ≢ ""
or_old-ne g o (inl n) = ground (arith, eq_iff g "")
or_old-ne g o (inr n) = ground (arith, eq_iff g "")

-- A text that the new status asks for: the old one, if the task has that status, or a new one.
asked :
    (to want : TaskStatus) (t : TaskRow) (g o : String)
    → (t.status ≡ want → o ≢ "")
    → ((same t.status to ≡ true) ⊎ ((same to want && blank g) ≡ false))
    → to ≡ want
    → (if str_eq g "" then o else g) ≢ ""
asked to want t g o old (inl e) q = or_old-ne g o (inl (old (same-eq t.status to e ∙ q)))
asked to want t g o old (inr e) q =
    or_old-ne g o
      (inr (blank-of-empty g (ground (arith, e, subst (λ x. same to x ≡ true) q (same_refl to)))))

or-left : (a b c : Bool) → (a && (b || c)) ≡ false → (a && b) ≡ false
or-left a b c h = ground arith

or-right : (a b c : Bool) → (a && (b || c)) ≡ false → (a && c) ≡ false
or-right a b c h = ground arith

-- The texts that `_validate_task_transition` has seen.
abbrev pub Complete : TaskStatus → TaskStatus → Change → Type 0
Complete old to c =
    (same old to ≡ true)
    ⊎ (((same to done && (blank c.result || blank c.verification_note)) ≡ false)
        × ((same to blocked && blank c.blocked_reason) ≡ false)
        × ((same to TaskStatus.rejected && blank c.review_note) ≡ false))

module _ {ℓ κ} {A : Type ℓ} {B : Type κ} where
  onto {μ} : {C : Type μ} → (B → C) → A ⊎ B → A ⊎ C
  onto f (inl a) = inl a
  onto f (inr b) = inr (f b)

-- A task whose new status brings the texts that it asks for.
pub changed-TaskIsValid :
    (now : ℕ) (to : TaskStatus) (c : Change) (t : TaskRow)
    → Complete t.status to c
    → TaskIsValid t
    → TaskIsValid (changed now to c t)
unfolding changed
changed-TaskIsValid now to c t h v = record {
  result =
      asked to done t c.result t.result v.result
        (onto (λ x. or-left (same to done) (blank c.result) (blank c.verification_note) x.0) h);
  verified =
      asked to done t c.verification_note t.verification_note v.verified
        (onto (λ x. or-right (same to done) (blank c.result) (blank c.verification_note) x.0) h);
  dated = λ e. rw e refl;
  reason = asked to blocked t c.blocked_reason t.blocked_reason v.reason (onto (λ x. x.1) h);
  reviewed =
      asked to TaskStatus.rejected t c.review_note t.review_note v.reviewed (onto (λ x. x.2) h);
}

pub set_task-StoreIsValid :
    (s : Store) (id : ℕ) (row : TaskRow) (f : TaskRow → TaskRow) (e : AuditEvent)
    → StoreIsValid s
    → task_of id s ≡ some row
    → ((t : TaskRow) → (f t).id ≡ t.id)
    → (TaskIsValid row → TaskIsValid (f row))
    → StoreIsValid (record_event e (set_task id f s))
set_task-StoreIsValid s id row f e v found keys hit = record {
  task_ids =
      Unique-update (λ (t : TaskRow). t.id) (λ (t : TaskRow). t.id == id) f s.tasks keys v.task_ids;
  approval_ids = v.approval_ids;
  tasks =
      update-by_key (λ (t : TaskRow). t.id) TaskIsValid TaskIsValid id row f s.tasks v.task_ids
        found hit (λ x h n. h) v.tasks;
  approvals = v.approvals;
}

pub set_approval-StoreIsValid :
    (s : Store) (id : ℕ) (row : Approval) (f : Approval → Approval) (e : AuditEvent)
    → StoreIsValid s
    → approval_of id s ≡ some row
    → ((a : Approval) → (f a).id ≡ a.id)
    → (ApprovalIsValid row → ApprovalIsValid (f row))
    → StoreIsValid (record_event e (set_approval id f s))
set_approval-StoreIsValid s id row f e v found keys hit = record {
  task_ids = v.task_ids;
  approval_ids =
      Unique-update (λ (a : Approval). a.id) (λ (a : Approval). a.id == id) f s.approvals keys
        v.approval_ids;
  tasks = v.tasks;
  approvals =
      update-by_key (λ (a : Approval). a.id) ApprovalIsValid ApprovalIsValid id row f s.approvals
        v.approval_ids found hit (λ x h n. h) v.approvals;
}

-- `decided` on an approval that is not consumed.
pub decided-ApprovalIsValid :
    (now : ℕ) (to : ApprovalStatus) (note : String) (a : Approval)
    → is_consumed a.status ≡ false
    → is_consumed to ≡ false
    → ApprovalIsValid a
    → ApprovalIsValid (decided now to note a)
unfolding decided
decided-ApprovalIsValid now to note a n m v = record {
  counted = ground (arith, v.counted);
  summary = v.summary;
  reason = v.reason;
  rollback = v.rollback;
}

pub spent-ApprovalIsValid :
    (now : ℕ) (a : Approval) → ApprovalIsValid a → ApprovalIsValid (spent now a)
unfolding spent
spent-ApprovalIsValid now a v = record {
  counted = refl;
  summary = v.summary;
  reason = v.reason;
  rollback = v.rollback;
}

rejection-ne-empty : (env : Env) (id : ℕ) → rejection env id ≢ ""
unfolding rejection
rejection-ne-empty env id =
    append-ne-nil_of_right_ne-nil "Approval "
      (append-ne-nil_of_right_ne-nil (env.print_id id) (λ e. cc e))

stopped-TaskIsValid :
    (env : Env) (now id : ℕ) (t : TaskRow) → TaskIsValid t → TaskIsValid (stopped env now id t)
unfolding stopped
stopped-TaskIsValid env now id t v = record {
  result = λ e. cc;
  verified = λ e. cc;
  dated = λ e. cc;
  reason = λ e. rejection-ne-empty env id;
  reviewed = λ e. cc;
}

pub stop_task-StoreIsValid :
    (env : Env) (now id : ℕ) (task : Option ℕ) (s : Store)
    → StoreIsValid s
    → StoreIsValid (stop_task env now id task s)
unfolding stop_task stopped
stop_task-StoreIsValid env now id none s v = v
stop_task-StoreIsValid env now id (some task) s v = record {
  task_ids =
      Unique-update (λ (t : TaskRow). t.id) _ (stopped env now id) s.tasks (λ t. refl) v.task_ids;
  approval_ids = v.approval_ids;
  tasks =
      update-All (λ (t : TaskRow). t.id == task && not (same t.status TaskStatus.rejected))
        TaskIsValid TaskIsValid (stopped env now id) s.tasks
        (λ t h p. stopped-TaskIsValid env now id t h) (λ t h p. h) v.tasks;
  approvals = v.approvals;
}
