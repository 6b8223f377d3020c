-- ===== src/Runs/Walk.antt =====
-- src/leon_control_plane/store.py: an accepted review keeps the tasks valid that it leads on.
use leon_ai_assistant.Base.{
  ℕ, ◌≡◌, refl, sym, Bool, true, ◌||◌, not, String, List, [], ◌∷◌, Option, none, some, arith, All,
}
use leon_ai_assistant.Base.Keys.{by_key-update_self}
use leon_ai_assistant.Db.{
  TaskStatus, new, planned, active, waiting_for_approval, waiting_for_secret, waiting_for_user,
  blocked, review, done,
}
use leon_ai_assistant.Approvals.{
  Store, TaskRow, task_of, set_task, record_event, task_status_changed,
}
use leon_ai_assistant.Approvals.Outcome.{did, >>=-did}
use leon_ai_assistant.Approvals.Invariant.{StoreIsValid, TaskIsValid}
use leon_ai_assistant.Approvals.Rows.{set_task-StoreIsValid}
use leon_ai_assistant.Approvals.Tasks.{validate_task_transition, same}
use leon_ai_assistant.Runs.{Run, ReviewStatus, Tools}
use leon_ai_assistant.Runs.Review.{
  advanced, walk, path, advance_row, advance_task, follow_up, no_change,
}

-- A status that asks for no text.
abbrev asks_nothing : TaskStatus → Bool
asks_nothing to = not (same to done || same to blocked || same to TaskStatus.rejected)

advanced-TaskIsValid :
    (now : ℕ) (summary verification : String) (to : TaskStatus) (t : TaskRow)
    → asks_nothing to ≡ true
    → TaskIsValid (advanced now summary verification to t)
unfolding advanced
advanced-TaskIsValid now summary verification to t h = record {
  result = λ e. absurd (ground (arith, e));
  verified = λ e. absurd (ground (arith, e));
  dated = λ e. absurd (ground (arith, e));
  reason = λ e. absurd (ground (arith, e));
  reviewed = λ e. absurd (ground (arith, e));
}

id-advanced :
    (now : ℕ) (summary verification : String) (to : TaskStatus) (t : TaskRow)
    → (advanced now summary verification to t).id ≡ t.id
unfolding advanced
id-advanced now summary verification to t = refl

pub advanced-found :
    (now id : ℕ) (summary verification : String) (to : TaskStatus) (row : TaskRow) (s : Store)
    → task_of id s ≡ some row
    → task_of id (set_task id (advanced now summary verification to) s)
      ≡ some (advanced now summary verification to row)
advanced-found now id summary verification to row s e =
    by_key-update_self (λ (t : TaskRow). t.id) id (advanced now summary verification to) row s.tasks
      (id-advanced now summary verification to) e

walk-StoreIsValid :
    (now id : ℕ) (summary verification : String) (old : TaskStatus) (steps : List TaskStatus)
    (row : TaskRow) (s u : Store)
    → All (λ to. asks_nothing to ≡ true) steps
    → task_of id s ≡ some row
    → StoreIsValid s
    → walk now id summary verification old steps s ≡ did u
    → StoreIsValid u
unfolding walk
walk-StoreIsValid now id summary verification old [] row s u a e v h =
    let q : s ≡ u = cc h in rw (sym q) v
walk-StoreIsValid now id summary verification old (to ∷ steps) row s u a e v h =
    let (_, _, h₁) = >>=-did (validate_task_transition id old to no_change s) h in
    walk-StoreIsValid now id summary verification to steps
      (advanced now summary verification to row)
      (record_event (task_status_changed id old to)
        (set_task id (advanced now summary verification to) s))
      u a.1 (advanced-found now id summary verification to row s e)
      (set_task-StoreIsValid s id row (advanced now summary verification to)
        (task_status_changed id old to) v e (id-advanced now summary verification to)
        (λ _. advanced-TaskIsValid now summary verification to row a.0))
      h₁

path-mild : (old : TaskStatus) → All (λ to. asks_nothing to ≡ true) (path old)
unfolding path
path-mild new = (refl, (refl, (refl, tt)))
path-mild planned = (refl, (refl, tt))
path-mild active = (refl, tt)
path-mild waiting_for_approval = tt
path-mild waiting_for_secret = tt
path-mild waiting_for_user = tt
path-mild blocked = tt
path-mild review = tt
path-mild done = tt
path-mild TaskStatus.rejected = tt

advance_row-StoreIsValid :
    (t : Tools) (now : ℕ) (r : Run) (o : Option TaskRow) (s u : Store)
    → task_of r.task_id s ≡ o
    → StoreIsValid s
    → advance_row t now r o s ≡ did u
    → StoreIsValid u
unfolding advance_row
advance_row-StoreIsValid t now r none s u e v h = let q : s ≡ u = cc h in rw (sym q) v
advance_row-StoreIsValid t now r (some row) s u e v h =
    walk-StoreIsValid now r.task_id _ _ row.status (path row.status) row s u (path-mild row.status)
      e v h

advance_task-StoreIsValid :
    (t : Tools) (now : ℕ) (r : Run) (s u : Store)
    → StoreIsValid s
    → advance_task t now r s ≡ did u
    → StoreIsValid u
unfolding advance_task
advance_task-StoreIsValid t now r s u v h =
    advance_row-StoreIsValid t now r (task_of r.task_id s) s u refl v h

pub follow_up-StoreIsValid :
    (t : Tools) (now : ℕ) (r : Run) (status : ReviewStatus) (s u : Store)
    → StoreIsValid s
    → follow_up t now r status s ≡ did u
    → StoreIsValid u
unfolding follow_up
follow_up-StoreIsValid t now r ReviewStatus.accepted s u v h =
    advance_task-StoreIsValid t now r s u v h
follow_up-StoreIsValid t now r ReviewStatus.pending s u v h = let q : s ≡ u = cc h in rw (sym q) v
follow_up-StoreIsValid t now r ReviewStatus.changes_requested s u v h =
    let q : s ≡ u = cc h in rw (sym q) v
follow_up-StoreIsValid t now r ReviewStatus.rejected s u v h = let q : s ≡ u = cc h in rw (sym q) v
