-- ===== src/Approvals/Continue.antt =====
-- src/leon_control_plane/store.py: both steps of `continue_task_after_approval`, when nothing else runs
-- between them.
use leon_ai_assistant.Base.{ℕ, ◌≡◌, refl, true, false, some, arith, String, ==_refl}
use leon_ai_assistant.Base.Keys.{by_key-update_self}
use leon_ai_assistant.Db.{waiting_for_approval, active}
use leon_ai_assistant.Approvals.{
  TaskRow, Approval, approval_consumed, Store, Env, task_of, approval_of, set_approval, set_task,
  record_event, blank,
}
use leon_ai_assistant.Approvals.Outcome.{did}
use leon_ai_assistant.Approvals.Tasks.{
  check_approval, checked, validate_task_transition, changed, baseline, update_task_status,
  task_event,
}
use leon_ai_assistant.Approvals.Decide.{
  consumable, spent, consume_approval, continuable, continue_task_after_approval, after_checks,
  after_consume, with_approval,
}

consume-did :
    (now id : ℕ) (evidence : String) (a : Approval) (s : Store)
    → approval_of id s ≡ some a
    → consumable now a ≡ true
    → blank evidence ≡ false
    → consume_approval now id evidence s
      ≡ did (record_event (approval_consumed id) (set_approval id (spent now) s))
unfolding consume_approval
consume-did now id evidence a s e c b = rw (b, e, c) refl

continuable-did :
    (id k : ℕ) (a : Approval) (t : TaskRow) (now : ℕ) (s : Store)
    → approval_of id s ≡ some a
    → consumable now a ≡ true
    → a.task_id ≡ some k
    → task_of k s ≡ some t
    → t.status ≡ waiting_for_approval
    → continuable id s ≡ did k
unfolding continuable
continuable-did id k a t now s e c q f w = ground (arith, e, c, q, f, w)

-- The gate of `waiting_for_approval` under the approval just consumed.
activates :
    (env : Env) (now later id k : ℕ) (a : Approval) (t : TaskRow) (s : Store)
    → approval_of id s ≡ some (spent now a)
    → a.task_id ≡ some k
    → task_of k s ≡ some t
    → t.status ≡ waiting_for_approval
    → env.contains_secret "" ≡ false
    → update_task_status env later k (some active) (with_approval id) s
      ≡ did (
          record_event
            (task_event k t.status active)
            (set_task k (changed later active (with_approval id)) s))
unfolding update_task_status validate_task_transition checked check_approval baseline spent
activates env now later id k a t s e q f w n = ground (arith, e, q, f, w, n, ==_refl k)

-- For an approved, live approval that is attached to a waiting task, with evidence, and with nothing else
-- between its transactions, the call returns: the approval is consumed and its task is active afterwards.
pub continue_total :
    (env : Env) (now later id k : ℕ) (evidence : String) (a : Approval) (t : TaskRow) (s : Store)
    → approval_of id s ≡ some a
    → consumable now a ≡ true
    → a.task_id ≡ some k
    → task_of k s ≡ some t
    → t.status ≡ waiting_for_approval
    → blank evidence ≡ false
    → env.contains_secret "" ≡ false
    → (s' : Store) × (t' : TaskRow) × (continue_task_after_approval env now later id evidence s
        ≡ (did k, s'))
      × (approval_of id s' ≡ some (spent now a))
      × (task_of k s' ≡ some t')
      × (t'.status ≡ active)
unfolding continue_task_after_approval after_checks after_consume spent changed
continue_total env now later id k evidence a t s e c q f w b n =
    let s₁ = record_event (approval_consumed id) (set_approval id (spent now) s) in
    let g =
      by_key-update_self (λ (x : Approval). x.id) id (spent now) a s.approvals (λ x. refl) e in
    let h =
      by_key-update_self (λ (x : TaskRow). x.id) k (changed later active (with_approval id)) t
        s.tasks (λ x. refl) f in
    (
      record_event (task_event k t.status active)
          (set_task k (changed later active (with_approval id)) s₁),
      changed later active (with_approval id) t,
      rw
          (
            continuable-did id k a t now s e c q f w,
            consume-did now id evidence a s e c b,
            activates env now later id k a t s₁ g q f w n,
          )
          refl,
      g,
      h,
      refl,
    )
