-- ===== src/Work/Commit.antt =====
-- src/leon_control_plane/work_queue.py: `checkpoint` against the invariant, and its INSERT against the
-- primary key of work_checkpoints.
use leon_ai_assistant.Base.{
  ℕ, ◌≤◌, ◌≡◌, refl, inl, inr, Bool, true, false, some, ◌==◌, arith, Bool-cases, Option-cases,
  is_some,
}
use Prim.Native.String.{len}
use leon_ai_assistant.Base.Rows.{find-All}
use leon_ai_assistant.Db.{
  Db, Job, queued, paused, WorkerResult, ok, job_of, set_job, log, task_eligible,
  parent_task_ineligible, local_model_retry, work, retry_queued,
}
use leon_ai_assistant.Model.{Env}
use leon_ai_assistant.Work.{release}
use leon_ai_assistant.Work.Claim.{Claim}
use leon_ai_assistant.Work.Checkpoints.{owns, may_retry, settle, checkpoint}
use leon_ai_assistant.Work.Invariant.{JobIsValid, DbIsValid}
use leon_ai_assistant.Work.Preserve.{release-DbIsValid}
use leon_ai_assistant.Work.Advance.{
  committed, commit-eq, advanced-open, committed-DbIsValid, owns-running, job_of_self,
}

-- What `settle` may do to the database.
settle-DbIsValid :
    (now : ℕ) (c : Claim) (r : WorkerResult) (row : Job) (db : Db)
    → job_of row.id db ≡ some row
    → JobIsValid db.checkpoints row
    → DbIsValid db
    → (b : Bool) × (db' : Db) × (settle now c r row db ≡ ok (b, db')) × DbIsValid db'
unfolding settle
settle-DbIsValid now c r row db found jv v = elim (Bool-cases (owns now c row)) [
  | inr e ↦ (false, db, rw e refl, v)
  | inl e ↦
      let s = owns-running now c row e in
      let o = advanced-open now true row s in
      elim (Bool-cases (task_eligible row.task_id db)) [
        | inr t ↦ (
          false,
          log (work paused row.id) (set_job row.id (release paused parent_task_ineligible now) db),
          rw (e, t) refl,
          release-DbIsValid db row paused _ now _ refl (λ x. cc) o found v,
        )
        | inl t ↦ elim (Bool-cases (may_retry row.kind r)) [
          | inl m ↦ (
            true,
            log (retry_queued row.id) (set_job row.id (release queued local_model_retry now) db),
            rw (e, t, m) refl,
            release-DbIsValid db row queued _ now _ refl (λ x. cc) o found v,
          )
          | inr m ↦ (
            true,
            committed now r row db,
            rw (e, t, m) (commit-eq now r row db jv s),
            committed-DbIsValid now r row db s found v,
          )
        ]
      ]
]

-- From a valid database `checkpoint` fails only for a secret in the result, an invalid or oversized
-- result, or an unknown job: its INSERT always finds the step free. What it commits is valid again.
pub checkpoint_total :
    (env : Env) (now : ℕ) (c : Claim) (r : WorkerResult) (db : Db) (row : Job)
    → DbIsValid db
    → env.contains_secret r.json ≡ false
    → len r.json ≤ 262144
    → is_some r.ok ≡ true
    → job_of c.id db ≡ some row
    → (b : Bool) × (db' : Db) × (checkpoint env now c r db ≡ ok (b, db')) × DbIsValid db'
unfolding checkpoint
checkpoint_total env now c r db row v secret size shape found =
    let jv =
      find-All (λ (j : Job). j.id == c.id) (JobIsValid db.checkpoints) db.jobs row v.valid found in
    let (b, db', e, v') = settle-DbIsValid now c r row db (job_of_self c.id db row found) jv v in
    (b, db', ground (arith, e, found), v')

-- `checkpoint` keeps the invariant whenever it succeeds.
pub checkpoint-DbIsValid :
    (env : Env) (now : ℕ) (c : Claim) (r : WorkerResult) (db : Db) (b : Bool) (db' : Db)
    → DbIsValid db
    → checkpoint env now c r db ≡ ok (b, db')
    → DbIsValid db'
unfolding checkpoint
checkpoint-DbIsValid env now c r db b db' v h = elim (Option-cases (job_of c.id db)) [
  | inl e ↦ absurd (ground (arith, e))
  | inr (row, e) ↦
      let jv =
        find-All (λ (j : Job). j.id == c.id) (JobIsValid db.checkpoints) db.jobs row v.valid e in
      let (b', db'', p, v') = settle-DbIsValid now c r row db (job_of_self c.id db row e) jv v in
      let q : db'' ≡ db' = ground (arith, e, p) in rw q at v'
]
