-- ===== src/Approvals/Keep.antt =====
-- src/leon_control_plane/store.py: the operations that change tasks and approvals, against the invariant
-- of the store.
use leon_ai_assistant.Base.{
  ℕ, ◌≡◌, refl, ◌⊎◌, inl, inr, true, false, ◌&&◌, ◌||◌, Option, none, some, arith, Bool-cases,
  Option-cases, String, if◌then◌else◌,
}
use leon_ai_assistant.Db.{TaskStatus}
use leon_ai_assistant.Approvals.{
  TaskRow, Approval, ApprovalStatus, approved, pending, Store, Env, approval_decided,
  approval_consumed, task_of, approval_of, set_task, set_approval, record_event, is_consumed,
  is_expired, is_rejected, is_approved,
}
use leon_ai_assistant.Approvals.Outcome.{did, Outcome-cases}
use leon_ai_assistant.Approvals.Tasks.{
  Change, same, checked, task_event, validate_task_transition, changed, update_task_status,
}
use leon_ai_assistant.Approvals.Decide.{
  parse_decision, undeferred, decided, stop_task, update_approval, approvable, live,
  approve_pending_approval, spent, consumable, consume_approval,
}
use leon_ai_assistant.Approvals.Invariant.{StoreIsValid}
use leon_ai_assistant.Approvals.Rows.{
  Complete, changed-TaskIsValid, decided-ApprovalIsValid, spent-ApprovalIsValid,
  set_task-StoreIsValid, set_approval-StoreIsValid, stop_task-StoreIsValid,
}

validate-Complete :
    (id : ℕ) (old to : TaskStatus) (c : Change) (s : Store) (u : Unit)
    → validate_task_transition id old to c s ≡ did u
    → Complete old to c
unfolding validate_task_transition checked
validate-Complete id old to c s u h = elim (Bool-cases (same old to)) [
  | inl e ↦ inl e
  | inr e ↦ inr (ground (arith, e), ground (arith, e), ground (arith, e))
]

-- What a successful `update_task_status` has found, checked and written.
pub record Retasks (now id : ℕ) (to : TaskStatus) (c : Change) (s s' : Store) (t : TaskRow)
    : Type 0 where
  pub found : task_of id s ≡ some t
  pub valid : validate_task_transition id t.status to c s ≡ did tt
  pub result : s' ≡ record_event (task_event id t.status to) (set_task id (changed now to c) s)

pub update_task_status-Retasks :
    (env : Env) (now id : ℕ) (to : TaskStatus) (c : Change) (s s' : Store)
    → update_task_status env now id (some to) c s ≡ did s'
    → (t : TaskRow) × Retasks now id to c s s' t
unfolding update_task_status
update_task_status-Retasks env now id to c s s' h = elim (Option-cases (task_of id s)) [
  | inl e ↦ absurd (ground (arith, e))
  | inr (t, e) ↦ elim (Outcome-cases (validate_task_transition id t.status to c s)) [
    | inl (u, k) ↦ (t, record { found = e; valid = k; result = ground (arith, e, k) })
    | inr (x, k) ↦ absurd (ground (arith, e, k))
  ]
]

pub update_task_status-StoreIsValid :
    (env : Env) (now id : ℕ) (status : Option TaskStatus) (c : Change) (s s' : Store)
    → StoreIsValid s
    → update_task_status env now id status c s ≡ did s'
    → StoreIsValid s'
unfolding update_task_status changed
update_task_status-StoreIsValid env now id none c s s' v h = absurd (ground arith)
update_task_status-StoreIsValid env now id (some to) c s s' v h =
    let (t, r) = update_task_status-Retasks env now id to c s s' h in
    rw r.result (
      set_task-StoreIsValid s id t (changed now to c) (task_event id t.status to) v r.found
        (λ t. refl)
        (changed-TaskIsValid now to c t (validate-Complete id t.status to c s tt r.valid)))

parse_decision-open :
    (x : String) (to : ApprovalStatus) → parse_decision x ≡ some to → is_consumed to ≡ false
unfolding parse_decision
parse_decision-open x to h = ground arith

abbrev pub after_decision : Env → ℕ → ℕ → ApprovalStatus → String → Approval → Store → Store
after_decision env now id to note a s =
    record_event (approval_decided id a.status to) (set_approval id (decided now to note) s)

-- What a successful `update_approval` has found and written.
pub record Decides (env : Env) (now id : ℕ) (note : String) (s s' : Store) (a : Approval)
    (to : ApprovalStatus) : Type 0 where
  pub found : approval_of id s ≡ some a
  pub open_now : is_consumed a.status || is_expired a.status ≡ false
  pub decision : is_consumed to ≡ false
  pub result : s' ≡ (
      if is_rejected to
      then stop_task env now id a.task_id (after_decision env now id to note a s)
      else after_decision env now id to note a s)

pub update_approval-Decides :
    (env : Env) (now id : ℕ) (status note : String) (s s' : Store)
    → update_approval env now id status note s ≡ did s'
    → (a : Approval) × (to : ApprovalStatus) × Decides env now id note s s' a to
unfolding update_approval
update_approval-Decides env now id status note s s' h =
    elim (Option-cases (parse_decision (undeferred status))) [
      | inl e ↦ absurd (ground (arith, e))
      | inr (to, e) ↦ elim (Option-cases (approval_of id s)) [
        | inl n ↦ absurd (ground (arith, e, n))
        | inr (a, n) ↦ (
          a,
          to,
          record {
            found = n;
            open_now = ground (arith, e, n);
            decision = parse_decision-open (undeferred status) to e;
            result = ground (arith, e, n);
          },
        )
      ]
    ]

decided-StoreIsValid :
    (env : Env) (now id : ℕ) (to : ApprovalStatus) (note : String) (a : Approval) (s : Store)
    → StoreIsValid s
    → approval_of id s ≡ some a
    → is_consumed a.status ≡ false
    → is_consumed to ≡ false
    → StoreIsValid (after_decision env now id to note a s)
unfolding decided
decided-StoreIsValid env now id to note a s v found n m =
    set_approval-StoreIsValid s id a (decided now to note) (approval_decided id a.status to) v found
      (λ x. refl) (decided-ApprovalIsValid now to note a n m)

pub update_approval-StoreIsValid :
    (env : Env) (now id : ℕ) (status note : String) (s s' : Store)
    → StoreIsValid s
    → update_approval env now id status note s ≡ did s'
    → StoreIsValid s'
update_approval-StoreIsValid env now id status note s s' v h =
    let (a, to, d) = update_approval-Decides env now id status note s s' h in
    let w =
      decided-StoreIsValid env now id to note a s v d.found (ground (arith, d.open_now))
        d.decision in
    elim (Bool-cases (is_rejected to)) [
      | inl e ↦
          rw (d.result, e)
            (stop_task-StoreIsValid env now id a.task_id (after_decision env now id to note a s) w)
      | inr e ↦ rw (d.result, e) w
    ]

-- `approve_pending_approval` leaves the store, or approves a pending, live approval.
pub approve-cases :
    (env : Env) (now id : ℕ) (note action origin : String) (s s' : Store)
    → approve_pending_approval env now id note action origin s ≡ did s'
    → (s' ≡ s)
      ⊎ ((a : Approval) × (approval_of id s ≡ some a)
          × (approvable now a ≡ true)
          × (s'
              ≡ record_event
                  (approval_decided id pending approved)
                  (set_approval id (decided now approved note) s)))
unfolding approve_pending_approval
approve-cases env now id note action origin s s' h = elim (Option-cases (approval_of id s)) [
  | inl e ↦ absurd (ground (arith, e))
  | inr (a, e) ↦ elim (Bool-cases (is_approved a.status && live now a)) [
    | inl l ↦ inl (ground (arith, e, l))
    | inr l ↦ inr (a, e, ground (arith, e, l), ground (arith, e, l))
  ]
]

pub approve_pending_approval-StoreIsValid :
    (env : Env) (now id : ℕ) (note action origin : String) (s s' : Store)
    → StoreIsValid s
    → approve_pending_approval env now id note action origin s ≡ did s'
    → StoreIsValid s'
unfolding decided
approve_pending_approval-StoreIsValid env now id note action origin s s' v h =
    elim (approve-cases env now id note action origin s s' h) [
      | inl e ↦ rw e v
      | inr (a, e, l, q) ↦ rw q (
          set_approval-StoreIsValid s id a (decided now approved note)
            (approval_decided id pending approved) v e (λ x. refl)
            (decided-ApprovalIsValid now approved note a (ground (arith, l)) refl))
    ]

-- What a successful `consume_approval` has found and written.
pub consume-cases :
    (now id : ℕ) (evidence : String) (s s' : Store)
    → consume_approval now id evidence s ≡ did s'
    → (a : Approval) × (approval_of id s ≡ some a)
      × (consumable now a ≡ true)
      × (s' ≡ record_event (approval_consumed id) (set_approval id (spent now) s))
unfolding consume_approval
consume-cases now id evidence s s' h = elim (Option-cases (approval_of id s)) [
  | inl e ↦ absurd (ground (arith, e))
  | inr (a, e) ↦ (a, e, ground (arith, e), ground (arith, e))
]

pub consume_approval-StoreIsValid :
    (now id : ℕ) (evidence : String) (s s' : Store)
    → StoreIsValid s
    → consume_approval now id evidence s ≡ did s'
    → StoreIsValid s'
unfolding spent
consume_approval-StoreIsValid now id evidence s s' v h =
    let (a, e, l, q) = consume-cases now id evidence s s' h in
    rw q (
      set_approval-StoreIsValid s id a (spent now) (approval_consumed id) v e (λ x. refl)
        (spent-ApprovalIsValid now a))
