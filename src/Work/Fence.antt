-- ===== src/Work/Fence.antt =====
-- src/leon_control_plane/work_queue.py: the lease token as a fence between workers.
use leon_ai_assistant.Base.{
  ℕ, ◌<◌, ◌≡◌, refl, sym, subst, inl, inr, ◌≢◌, Bool, true, false, some, arith, Bool-cases,
  Option-cases, leb,
}
use leon_ai_assistant.Base.Keys.{by_key-update_self}
use leon_ai_assistant.Db.{Db, Job, WorkerResult, ok, job_of, set_job, log, claimed, task_eligible}
use leon_ai_assistant.Model.{Env}
use leon_ai_assistant.Work.{View, is_running, max_attempts, results_of}
use leon_ai_assistant.Work.Control.{Action, pause, resume, cancel, target, reached, moved, control}
use leon_ai_assistant.Work.Claim.{Claim, next_job, leased, claim}
use leon_ai_assistant.Work.Checkpoints.{owns, settle, checkpoint}
use leon_ai_assistant.Work.Invariant.{DbIsValid}
use leon_ai_assistant.Work.Preserve.{next_job-found}

-- A claim that leases a job: the first of the query, of an eligible task, with attempts left.
pub record Leases (now token : ℕ) (ready : Bool) (db : Db) (c : Claim) (db' : Db) (row : Job)
    : Type 0 where
  pub first : next_job now ready db ≡ some row
  pub eligible : task_eligible row.task_id db ≡ true
  pub room : row.attempts < max_attempts
  pub claim : c ≡ record {
    id = row.id;
    task_id = row.task_id;
    step = row.next_step;
    kind = row.kind;
    token = token;
    results = results_of row.id db;
  }
  pub result : db' ≡ log (claimed row.id) (set_job row.id (leased now token) db)

pub claim-Leases :
    (now token : ℕ) (ready : Bool) (db : Db) (c : Claim) (db' : Db)
    → claim now token ready db ≡ (some c, db')
    → (row : Job) × Leases now token ready db c db' row
unfolding claim
claim-Leases now token ready db c db' h = elim (Option-cases (next_job now ready db)) [
  | inl e ↦ absurd (ground (arith, e))
  | inr (row, e) ↦ elim (Bool-cases (task_eligible row.task_id db)) [
    | inr t ↦ absurd (ground (arith, e, t))
    | inl t ↦ elim (Bool-cases (leb max_attempts row.attempts)) [
      | inl a ↦ absurd (ground (arith, e, t, a))
      | inr a ↦ (
        row,
        record {
          first = e;
          eligible = t;
          room = ground (arith, a);
          claim = ground (arith, e, t, a);
          result = ground (arith, e, t, a);
        },
      )
    ]
  ]
]

-- Without the lease `checkpoint` returns False and changes nothing.
pub not_owned :
    (env : Env) (now : ℕ) (c : Claim) (r : WorkerResult) (db : Db) (row : Job) (b : Bool) (db' : Db)
    → job_of c.id db ≡ some row
    → owns now c row ≡ false
    → checkpoint env now c r db ≡ ok (b, db')
    → (b ≡ false) × (db' ≡ db)
unfolding checkpoint settle
not_owned env now c r db row b db' e o h = ground (arith, e, o)

-- The row of a job that was just leased.
pub leased-row :
    (now token : ℕ) (ready : Bool) (db : Db) (c : Claim) (db' : Db)
    → DbIsValid db
    → claim now token ready db ≡ (some c, db')
    → (row : Job) × (job_of c.id db' ≡ some (leased now token row))
      × Leases now token ready db c db' row
unfolding leased
leased-row now token ready db c db' v h =
    let (row, l) = claim-Leases now token ready db c db' h in
    let (w, found) = next_job-found now ready db row v l.first in
    (
      row,
      rw (l.claim, l.result)
          (by_key-update_self (λ (j : Job). j.id) row.id (leased now token) row db.jobs (λ j. refl)
            found),
      l,
    )

other-token :
    (later now token : ℕ) (c : Claim) (row : Job)
    → c.token ≢ token
    → owns later c (leased now token row) ≡ false
unfolding owns leased
other-token later now token c row n = ground arith

-- After a job was leased under a new token, a worker with another token commits nothing to it:
-- its `checkpoint` returns False and leaves the database as it is.
pub stale_token :
    (now token later : ℕ) (ready : Bool) (db db' db'' : Db) (c old : Claim)
    → (env : Env) (r : WorkerResult) (b : Bool) → DbIsValid db
    → claim now token ready db ≡ (some c, db')
    → old.id ≡ c.id
    → old.token ≢ token
    → checkpoint env later old r db' ≡ ok (b, db'')
    → (b ≡ false) × (db'' ≡ db')
stale_token now token later ready db db' db'' c old env r b v h same other k =
    let (row, e, l) = leased-row now token ready db c db' v h in
    not_owned env later old r db' (leased now token row) b db''
      (subst (λ i. job_of i db' ≡ some (leased now token row)) (sym same) e)
      (other-token later now token old row other) k

moved-idle :
    (now : ℕ) (a : Action) (row : Job) → is_running (moved (target a) now row).status ≡ false
unfolding moved
moved-idle now pause row = refl
moved-idle now resume row = refl
moved-idle now cancel row = refl

reached-idle :
    (a : Action) (row : Job) → reached a row.status ≡ true → is_running row.status ≡ false
reached-idle a row h = ground arith

-- A job that was paused, resumed or cancelled is not running.
pub control-idle :
    (now : ℕ) (a : Action) (w : View) (id : ℕ) (db db' : Db)
    → control now id (some a) db ≡ ok (w, db')
    → (row : Job) × (job_of id db' ≡ some row) × (is_running row.status ≡ false)
unfolding control moved
control-idle now a w id db db' h = elim (Option-cases (job_of id db)) [
  | inl e ↦ absurd (ground (arith, e))
  | inr (row, e) ↦ elim (Bool-cases (reached a row.status)) [
    | inl t ↦ let same : db' ≡ db = ground (arith, e, t) in (row, rw same e, reached-idle a row t)
    | inr t ↦
        let found =
          by_key-update_self (λ (j : Job). j.id) id (moved (target a) now) row db.jobs (λ j. refl)
            e in
        (moved (target a) now row, ground (arith, e, t, found), moved-idle now a row)
  ]
]
