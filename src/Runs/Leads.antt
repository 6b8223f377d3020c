-- ===== src/Runs/Leads.antt =====
-- src/leon_control_plane/store.py: where an accepted review leads the task of its run.
use leon_ai_assistant.Base.{
  ℕ, ◌≡◌, refl, ◌⊎◌, inl, inr, Bool-cases, Option-cases, Bool, true, false, not, String, [], none,
  some, arith,
}
use leon_ai_assistant.Db.{
  TaskStatus, new, planned, active, waiting_for_approval, waiting_for_secret, waiting_for_user,
  blocked, review, done, is_open_task,
}
use leon_ai_assistant.Approvals.{
  Store, TaskRow, task_of, set_task, record_event, blank, task_status_changed, agent_run_reviewed,
}
use leon_ai_assistant.Approvals.Outcome.{did}
use leon_ai_assistant.Approvals.Tasks.{validate_task_transition, checked, baseline}
use leon_ai_assistant.Runs.{Run, ReviewStatus, Desk, Tools, run_of, set_run, report}
use leon_ai_assistant.Runs.Review.{
  advanced, walk, path, advance_row, advance_task, follow_up, review_agent_run, reviewed,
  run_summary, run_verification,
}
use leon_ai_assistant.Runs.Complete.{is_completion}
use leon_ai_assistant.Runs.Walk.{advanced-found}

-- The task in review, with the texts of the run.
abbrev pub InReview : ℕ → String → Store → Type 0
InReview id summary u =
    (row : TaskRow) × (task_of id u ≡ some row) × (row.status ≡ review) × (row.result ≡ summary)

module _ (now id : ℕ) (summary verification : String) where
  step_to : TaskStatus → TaskStatus → Store → Store
  step_to old to s =
      record_event (task_status_changed id old to)
        (set_task id (advanced now summary verification to) s)

  ends-InReview :
      (old : TaskStatus) (row : TaskRow) (s : Store)
      → task_of id s ≡ some row
      → InReview id summary (step_to old review s)
  unfolding step_to advanced
  ends-InReview old row s e = (
    advanced now summary verification review row,
    advanced-found now id summary verification review row s e,
    refl,
    refl,
  )

  walk-path :
      (old : TaskStatus) (row : TaskRow) (s : Store)
      → task_of id s ≡ some row
      → is_open_task old ≡ true
      → (u : Store) × (walk now id summary verification old (path old) s ≡ did u)
        × InReview id summary u
  unfolding walk path validate_task_transition checked baseline step_to
  walk-path new row s e h =
      let f = advanced-found now id summary verification planned row s e in
      let g =
        advanced-found now id summary verification active
          (advanced now summary verification planned row) (step_to new planned s) f in
      (
        step_to active review (step_to planned active (step_to new planned s)),
        refl,
        ends-InReview active
            (advanced now summary verification active
              (advanced now summary verification planned row))
            (step_to planned active (step_to new planned s)) g,
      )
  walk-path planned row s e h =
      let f = advanced-found now id summary verification active row s e in
      (
        step_to active review (step_to planned active s),
        refl,
        ends-InReview active (advanced now summary verification active row)
            (step_to planned active s) f,
      )
  walk-path active row s e h = (step_to active review s, refl, ends-InReview active row s e)
  walk-path _ row s e h = absurd (ground arith)

-- The task is missing, or has another status than new, planned and active.
abbrev pub idle : ℕ → Store → Bool
idle id s = elim (task_of id s) [ none ↦ true | some row ↦ not (is_open_task row.status) ]

-- What an accepted review makes of the task of its run: it leads a new, planned or active one to review, and
-- leaves the store alone otherwise.
abbrev pub Leads : ℕ → String → Store → Store → Type 0
Leads id summary s u =
    ((row : TaskRow) × (task_of id s ≡ some row)
      × (is_open_task row.status ≡ true)
      × InReview id summary u)
    ⊎ ((idle id s ≡ true) × (u ≡ s))

path-rest : (old : TaskStatus) → is_open_task old ≡ false → path old ≡ []
unfolding path
path-rest new h = absurd (cc h)
path-rest planned h = absurd (cc h)
path-rest active h = absurd (cc h)
path-rest waiting_for_approval h = refl
path-rest waiting_for_secret h = refl
path-rest waiting_for_user h = refl
path-rest blocked h = refl
path-rest review h = refl
path-rest done h = refl
path-rest TaskStatus.rejected h = refl

advance_task-Leads :
    (t : Tools) (now : ℕ) (r : Run) (s : Store)
    → (u : Store) × (advance_task t now r s ≡ did u) × Leads r.task_id (run_summary t r) s u
unfolding advance_task advance_row walk
advance_task-Leads t now r s = elim (Option-cases (task_of r.task_id s)) [
  | inl e ↦ (s, rw e refl, inr (rw (e, idle) refl, refl))
  | inr (row, e) ↦ elim (Bool-cases (is_open_task row.status)) [
    | inl o ↦
        let (u, w, q) =
          walk-path now r.task_id (run_summary t r) (run_verification t r) row.status row s e o in
        (u, rw e w, inl (row, e, o, q))
    | inr o ↦ (s, rw (e, path-rest row.status o) refl, inr (rw (e, idle, o) refl, refl))
  ]
]

-- An accepted review of a completed run, with a note that is neither blank nor secret, is never refused,
-- whether the run's task is there or not. If it is new, planned or active, it is in review afterwards with
-- the run's summary as its result; if not, no task changes.
pub accepted_review :
    (t : Tools) (now id : ℕ) (note : String) (d : Desk) (r : Run)
    → run_of id d ≡ some r
    → is_completion r.status ≡ true
    → blank note ≡ false
    → t.contains_secret note ≡ false
    → (d' : Desk) × (review_agent_run t now id ReviewStatus.accepted note d ≡ did d')
      × Leads r.task_id (run_summary t r) (report (agent_run_reviewed id) d).store d'.store
unfolding review_agent_run follow_up
accepted_review t now id note d r e c n k =
    let (u, w, q) = advance_task-Leads t now r (report (agent_run_reviewed id) d).store in
    (
      record (report (agent_run_reviewed id)
          (set_run id (reviewed now ReviewStatus.accepted note) d)) { store = u },
      rw (n, k, e, c, w) refl,
      q,
    )
