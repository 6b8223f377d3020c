-- ===== src/Work/Invariant.antt =====
-- src/leon_control_plane/work_queue.py: what holds of every job, whatever the operations before.
use leon_ai_assistant.Base.{
  ℕ, ◌≤◌, ◌<◌, ◌≡◌, ◌⊎◌, Bool, true, ◌&&◌, List, some, ◌==◌, is_some, arith, All, All-map_of, ◌∙◌,
}
use leon_ai_assistant.Base.Rows.{count}
use leon_ai_assistant.Base.Keys.{
  Unique, update-by_key, Unique-update, is_some-by_key-update, count-update-le,
}
use leon_ai_assistant.Db.{Db, Job, succeeded, failed, Checkpoint, Event, job_of, set_job, log}
use leon_ai_assistant.Work.{
  total_steps, is_running, is_open, open_jobs, max_open_jobs, max_attempts,
}
use leon_ai_assistant.Work.Checkpoints.{is_true}

-- A checkpoint of the job is for a step before the next one, or for the step that failed.
abbrev pub StepBelow : Job → Checkpoint → Type 0
StepBelow j c =
    (c.job_id == j.id) ≡ true
    → (c.step < j.next_step) ⊎ ((c.step ≡ j.next_step) × (j.status ≡ failed))

abbrev pub passed : ℕ → Checkpoint → Bool
passed id c = c.job_id == id && is_true c.result.ok

pub record JobIsValid (cs : List Checkpoint) (j : Job) : Type 0 where
  pub leased : is_some j.lease_token ≡ is_running j.status
  pub timed : is_some j.lease_until ≡ is_running j.status
  pub tries : j.attempts ≤ max_attempts
  pub within : j.next_step ≤ total_steps j.kind
  pub unfinished : is_open j.status ≡ true → j.next_step < total_steps j.kind
  pub finished : j.status ≡ succeeded → j.next_step ≡ total_steps j.kind
  pub steps : All (StepBelow j) cs
  pub counted : count (passed j.id) cs ≡ j.next_step

pub record DbIsValid (db : Db) : Type 0 where
  pub ids : Unique (λ (j : Job). j.id) db.jobs
  pub requests : Unique (λ (j : Job). j.request_id) db.jobs
  pub valid : All (JobIsValid db.checkpoints) db.jobs
  pub refs : All (λ (c : Checkpoint). is_some (job_of c.job_id db) ≡ true) db.checkpoints
  pub bounded : open_jobs db ≤ max_open_jobs

-- A change of one job's row.
pub record KeepsKeys (f : Job → Job) : Type 0 where
  pub id : (j : Job) → (f j).id ≡ j.id
  pub request_id : (j : Job) → (f j).request_id ≡ j.request_id

-- Changing one row, which keeps its own invariant and does not open it, keeps the database's.
pub set_job-DbIsValid :
    (db : Db) (id : ℕ) (row : Job) (f : Job → Job) (e : Event)
    → DbIsValid db
    → job_of id db ≡ some row
    → KeepsKeys f
    → (JobIsValid db.checkpoints row → JobIsValid db.checkpoints (f row))
    → (is_open (f row).status ≡ true → is_open row.status ≡ true)
    → DbIsValid (log e (set_job id f db))
unfolding open_jobs
set_job-DbIsValid db id row f e v found keys hit opens = record {
  ids = Unique-update (λ (j : Job). j.id) (λ (j : Job). j.id == id) f db.jobs keys.id v.ids;
  requests =
      Unique-update (λ (j : Job). j.request_id) (λ (j : Job). j.id == id) f db.jobs keys.request_id
        v.requests;
  valid =
      update-by_key (λ (j : Job). j.id) (JobIsValid db.checkpoints) (JobIsValid db.checkpoints) id
        row f db.jobs v.ids found hit (λ x h n. h) v.valid;
  refs =
      All-map_of (λ (c : Checkpoint). is_some (job_of c.job_id db) ≡ true)
        (λ (c : Checkpoint). is_some (job_of c.job_id (set_job id f db)) ≡ true) db.checkpoints
        (λ c h. is_some-by_key-update (λ (j : Job). j.id) id c.job_id f db.jobs keys.id ∙ h) v.refs;
  bounded = omega (
    arith,
    count-update-le (λ (j : Job). j.id) (λ (j : Job). is_open j.status) id row f db.jobs v.ids found
        opens,
    v.bounded,
  );
}
