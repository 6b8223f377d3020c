-- ===== src/Work/Handover.antt =====
-- src/leon_control_plane/work_queue.py: from `claim` to `checkpoint` under one lease.
use Prim.Native.String.{len}
use leon_ai_assistant.Base.{
  ℕ, ◌+◌, ◌≤◌, ◌<◌, ◌≡◌, refl, sym, ap, subst, inl, inr, Bool, true, false, Option, none, some,
  arith, Bool-cases, Option-cases, is_some, ◌==◌, if◌then◌else◌,
}
use leon_ai_assistant.Base.Keys.{by_key-update_self}
use leon_ai_assistant.Base.Rows.{find-All}
use leon_ai_assistant.Db.{
  Db, Job, running, queued, WorkerResult, ok, job_of, task_eligible, local_model_retry,
}
use leon_ai_assistant.Model.{Env}
use leon_ai_assistant.Work.{lease_seconds, is_running, release}
use leon_ai_assistant.Work.Claim.{Claim, leased, claim}
use leon_ai_assistant.Work.Checkpoints.{owns, settle, checkpoint, may_retry, is_true, advanced}
use leon_ai_assistant.Work.Invariant.{DbIsValid, JobIsValid}
use leon_ai_assistant.Work.Preserve.{claim-DbIsValid}
use leon_ai_assistant.Work.Advance.{job_of_self, job_of-id, owns-running, commit-eq, committed}
use leon_ai_assistant.Work.Fence.{leased-row}

leased-owns :
    (now later token : ℕ) (c : Claim) (row : Job)
    → c.token ≡ token
    → c.step ≡ row.next_step
    → later < now + lease_seconds
    → owns later c (leased now token row) ≡ true
unfolding owns leased
leased-owns now later token c row t s l = ground (arith, t, s)

abbrev pub step_after : Bool → ℕ → ℕ
step_after passed n = if passed then n + 1 else n

committed-row :
    (now : ℕ) (r : WorkerResult) (row : Job) (db : Db)
    → job_of row.id db ≡ some row
    → job_of row.id (committed now r row db) ≡ some (advanced now (is_true r.ok) row)
unfolding advanced
committed-row now r row db e =
    by_key-update_self (λ (j : Job). j.id) row.id (advanced now (is_true r.ok)) row db.jobs
      (λ j. refl) e

-- The last branch of `checkpoint`, under its guards.
settle-commits :
    (now : ℕ) (c : Claim) (r : WorkerResult) (row : Job) (db : Db)
    → owns now c row ≡ true
    → task_eligible row.task_id db ≡ true
    → may_retry row.kind r ≡ false
    → JobIsValid db.checkpoints row
    → row.status ≡ running
    → settle now c r row db ≡ ok (true, committed now r row db)
unfolding settle
settle-commits now c r row db o t m v e = rw (o, t, m) (commit-eq now r row db v e)

-- From a valid database: a worker that checkpoints an acceptable result while its lease runs, for a
-- task that is still eligible, commits it. The job then is one step further exactly if the result
-- passed, holds no lease and has no attempts counted against it.
pub claim_then_checkpoint :
    (now token later : ℕ) (ready : Bool) (db db' : Db) (c : Claim) (env : Env) (r : WorkerResult)
    → DbIsValid db
    → claim now token ready db ≡ (some c, db')
    → later < now + lease_seconds
    → task_eligible c.task_id db' ≡ true
    → may_retry c.kind r ≡ false
    → env.contains_secret r.json ≡ false
    → len r.json ≤ 262144
    → is_some r.ok ≡ true
    → (db'' : Db) × (row : Job) × (checkpoint env later c r db' ≡ ok (true, db''))
      × (job_of c.id db'' ≡ some row)
      × (row.next_step ≡ step_after (is_true r.ok) c.step)
      × (row.lease_token ≡ none)
      × (row.attempts ≡ 0)
unfolding checkpoint leased advanced
claim_then_checkpoint now token later ready db db' c env r v h t el re secret size shape =
    let (row, e, l) = leased-row now token ready db c db' v h in
    let v' : DbIsValid db' =
      subst (λ (x : Option Claim × Db). DbIsValid x.1) h (claim-DbIsValid now token ready db v) in
    let j = leased now token row in
    let jv =
      find-All (λ (x : Job). x.id == c.id) (JobIsValid db'.checkpoints) db'.jobs j v'.valid e in
    let o =
      leased-owns now later token c row (ap (λ (x : Claim). x.token) l.claim)
        (ap (λ (x : Claim). x.step) l.claim) t in
    let el' : task_eligible j.task_id db' ≡ true =
      subst (λ i. task_eligible i db' ≡ true) (ap (λ (x : Claim). x.task_id) l.claim) el in
    let re' : may_retry j.kind r ≡ false =
      subst (λ k. may_retry k r ≡ false) (ap (λ (x : Claim). x.kind) l.claim) re in
    let s = settle-commits later c r j db' o el' re' jv refl in
    (
      committed later r j db',
      advanced later (is_true r.ok) j,
      ground (arith, secret, size, shape, e, s),
      subst (λ i. job_of i (committed later r j db') ≡ some (advanced later (is_true r.ok) j))
          (sym (ap (λ (x : Claim). x.id) l.claim))
          (committed-row later r j db' (job_of_self c.id db' j e)),
      next later row (is_true r.ok) (ap (λ (x : Claim). x.step) l.claim),
      refl,
      refl,
    )
  where
    next :
        (later : ℕ) (row : Job) (b : Bool)
        → c.step ≡ row.next_step
        → (advanced later b (leased now token row)).next_step ≡ step_after b c.step
    next later row true e = ground (arith, e)
    next later row false e = ground (arith, e)

advanced-idle : (now : ℕ) (b : Bool) (row : Job) → is_running (advanced now b row).status ≡ false
unfolding advanced
advanced-idle now true row = ground arith
advanced-idle now false row = refl

-- The status of a job after any successful branch of `settle`.
settled-row :
    (now : ℕ) (c : Claim) (r : WorkerResult) (row : Job) (db db' : Db)
    → job_of row.id db ≡ some row
    → JobIsValid db.checkpoints row
    → settle now c r row db ≡ ok (true, db')
    → (row' : Job) × (job_of row.id db' ≡ some row') × (is_running row'.status ≡ false)
unfolding settle release
settled-row now c r row db db' e v h = elim (Bool-cases (owns now c row)) [
  | inr o ↦ absurd (ground (arith, o))
  | inl o ↦ elim (Bool-cases (task_eligible row.task_id db)) [
    | inr t ↦ absurd (ground (arith, o, t))
    | inl t ↦ elim (Bool-cases (may_retry row.kind r)) [
      | inl m ↦
          let found =
            by_key-update_self (λ (j : Job). j.id) row.id (release queued local_model_retry now) row
              db.jobs (λ j. refl) e in
          (release queued local_model_retry now row, ground (arith, o, t, m, found), refl)
      | inr m ↦
          let s = owns-running now c row o in
          let c' = commit-eq now r row db v s in
          let found = committed-row now r row db e in
          (
            advanced now (is_true r.ok) row,
            ground (arith, o, t, m, c', found),
            advanced-idle now _ row,
          )
    ]
  ]
]

-- After `checkpoint` returned True the job is not running.
pub checkpoint-idle :
    (env : Env) (now : ℕ) (c : Claim) (r : WorkerResult) (db db' : Db)
    → DbIsValid db
    → checkpoint env now c r db ≡ ok (true, db')
    → (row : Job) × (job_of c.id db' ≡ some row) × (is_running row.status ≡ false)
unfolding checkpoint
checkpoint-idle env now c r db db' v h = elim (Option-cases (job_of c.id db)) [
  | inl e ↦ absurd (ground (arith, e))
  | inr (row, e) ↦
      let jv =
        find-All (λ (x : Job). x.id == c.id) (JobIsValid db.checkpoints) db.jobs row v.valid e in
      let (row', f, idle) =
        settled-row now c r row db db' (job_of_self c.id db row e) jv (ground (arith, e)) in
      (row', subst (λ i. job_of i db' ≡ some row') (job_of-id c.id db row e) f, idle)
]
