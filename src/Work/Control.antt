-- ===== src/Work/Control.antt =====
-- src/leon_control_plane/work_queue.py: `control`, which pauses, resumes and cancels a job.
use leon_ai_assistant.Base.{ℕ, Bool, true, false, ◌&&◌, not, Option, none, some, if◌then◌else◌}
use leon_ai_assistant.Db.{
  Db, Job, Status, queued, running, paused, cancelled, Result, ok, err, or_fault, require, ◌>>=◌,
  ◌>>◌, unknown_job, bad_action, bad_state, task_ineligible, job_of, set_job, log, work,
  task_eligible,
}
use leon_ai_assistant.Work.{View, view}

pub data Action : Type 0 where
  pause resume cancel : Action

abbrev pub target : Action → Status
target pause = paused
target resume = queued
target cancel = cancelled

-- `row["status"] == target`
abbrev pub reached : Action → Status → Bool
reached pause paused = true
reached resume queued = true
reached cancel cancelled = true
reached _ _ = false

-- `row["status"] in allowed[action]`
abbrev pub allowed : Action → Status → Bool
allowed pause queued = true
allowed pause running = true
allowed resume paused = true
allowed cancel queued = true
allowed cancel running = true
allowed cancel paused = true
allowed _ _ = false

abbrev is_resume : Action → Bool
is_resume resume = true
is_resume _ = false

-- UPDATE work_jobs SET status=?, lease_token=NULL, lease_until=NULL, updated_at=?
unfoldable pub moved : Status → ℕ → Job → Job
moved s now j = record j { status = s; lease_token = none; lease_until = none; updated_at = now }

-- `action` is none where it is none of the three words.
unfoldable pub control : ℕ → ℕ → Option Action → Db → Result (View × Db)
unfolding moved
control now id none db = err bad_action
control now id (some action) db = do
  row ← or_fault (job_of id db) unknown_job
  if reached action row.status then ok (view db row, db) else (do
    require (allowed action row.status) bad_state
    require (not (is_resume action && not (task_eligible row.task_id db))) task_ineligible
    let db' = log (work (target action) id) (set_job id (moved (target action) now) db)
    row' ← or_fault (job_of id db') unknown_job
    ok (view db' row', db'))
