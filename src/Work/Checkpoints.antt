-- ===== src/Work/Checkpoints.antt =====
-- src/leon_control_plane/work_queue.py: `checkpoint`, which commits a worker's result under its lease.
use Prim.Native.String.{len}
use leon_ai_assistant.Base.{
  ℕ, ◌+◌, Bool, true, false, ◌&&◌, not, Option, none, some, ◌==◌, leb, ltb, if◌then◌else◌, is_some,
}
use leon_ai_assistant.Db.{
  Db, Job, Kind, Status, queued, paused, succeeded, failed, JobError, no_error,
  parent_task_ineligible, local_model_retry, check_failed, WorkerResult, Result, ok, require,
  or_fault, ◌>>=◌, ◌>>◌, secret_found, invalid_result, unknown_job, job_of, set_job, log, work,
  checkpoint_recorded, retry_queued, task_eligible,
}
use leon_ai_assistant.Model.{Env}
use leon_ai_assistant.Work.{total_steps, is_running, is_model, release, insert_checkpoint}
use leon_ai_assistant.Work.Claim.{Claim}

abbrev pub is_token : Option ℕ → ℕ → Bool
is_token none t = false
is_token (some s) t = s == t

-- `lease_until > now`
abbrev pub holds : Option ℕ → ℕ → Bool
holds none now = false
holds (some t) now = ltb now t

-- The worker of `c` still owns the lease.
unfoldable pub owns : ℕ → Claim → Job → Bool
owns now c row =
    is_running row.status
    && is_token row.lease_token c.token
    && row.next_step == c.step
    && holds row.lease_until now

abbrev pub is_true : Option Bool → Bool
is_true (some true) = true
is_true _ = false

abbrev pub is_false : Option Bool → Bool
is_false (some false) = true
is_false _ = false

-- A local model that could not be reached may be tried again.
unfoldable pub may_retry : Kind → WorkerResult → Bool
may_retry kind r = is_model kind && r.retry_allowed && is_false r.provider_calls_made

-- The status after a committed result, from the step that follows it.
unfoldable pub status_after : Kind → Bool → ℕ → Status
unfolding total_steps
status_after kind true next = if next == total_steps kind then succeeded else queued
status_after kind false next = failed

abbrev pub error_after : Bool → JobError
error_after true = no_error
error_after false = check_failed

unfoldable pub advanced : ℕ → Bool → Job → Job
unfolding status_after
advanced now passed j =
    let next = if passed then j.next_step + 1 else j.next_step in
    record j {
      status = status_after j.kind passed next;
      next_step = next;
      attempts = 0;
      lease_token = none;
      lease_until = none;
      error = error_after passed;
      updated_at = now;
    }

-- The last branch: insert the checkpoint, then update the job.
unfoldable pub commit : ℕ → WorkerResult → Job → Db → Result (Bool × Db)
unfolding advanced
commit now r row db = do
  db' ←
      insert_checkpoint
        (record { job_id = row.id; step = row.next_step; result = r; recorded_at = now }) db
  ok (true, log (checkpoint_recorded row.id) (set_job row.id (advanced now (is_true r.ok)) db'))

unfoldable pub settle : ℕ → Claim → WorkerResult → Job → Db → Result (Bool × Db)
settle now c r row db =
    if not (owns now c row)
    then ok (false, db)
    else if not (task_eligible row.task_id db)
    then ok (
      false,
      log (work paused row.id) (set_job row.id (release paused parent_task_ineligible now) db),
    )
    else if may_retry row.kind r
    then ok
        (true, log (retry_queued row.id) (set_job row.id (release queued local_model_retry now) db))
    else commit now r row db

unfoldable pub checkpoint : Env → ℕ → Claim → WorkerResult → Db → Result (Bool × Db)
checkpoint env now c r db = do
  require (not (env.contains_secret r.json)) secret_found
  require (leb (len r.json) 262144 && is_some r.ok) invalid_result
  row ← or_fault (job_of c.id db) unknown_job
  settle now c r row db
