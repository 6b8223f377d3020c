-- ===== src/System/Flight.antt =====
-- src/leon_control_plane/work_queue.py: the operations on an existing job, and the rows of model_work.
use leon_ai_assistant.Base.{
  ℕ, ◌≡◌, refl, ◌⊎◌, inl, inr, Bool, false, ◌∷◌, Option, none, some, arith, Bool-cases,
  Option-cases, leb, ◌==◌,
}
use leon_ai_assistant.Base.Rows.{find-All}
use leon_ai_assistant.Db.{
  Db, Job, Event, work, claimed, checkpoint_recorded, retry_queued, paused, failed, Approved,
  WorkerResult, ok, job_of, model_of, task_eligible,
}
use leon_ai_assistant.Model.{Env}
use leon_ai_assistant.Model.Rows.{is_send}
use leon_ai_assistant.Work.{View, max_attempts}
use leon_ai_assistant.Work.Claim.{Claim, claim, next_job, lease}
use leon_ai_assistant.Work.Control.{Action, control, reached, target}
use leon_ai_assistant.Work.Checkpoints.{checkpoint, settle, owns, may_retry}
use leon_ai_assistant.Work.Enqueue.{fresh_model}
use leon_ai_assistant.Work.Invariant.{DbIsValid, JobIsValid}
use leon_ai_assistant.Work.Advance.{owns-running, commit-eq}

-- The audit log gains at most one event, which authorizes no send.
abbrev pub Logs : Db → Db → Type 0
Logs db db' =
    (db'.audit ≡ db.audit)
    ⊎ ((e : Event) × ((k : ℕ) → is_send k e ≡ false) × (db'.audit ≡ e ∷ db.audit))

pub data Grounded (db db' : Db) : Type 0 where
  still : db'.models ≡ db.models → Logs db db' → Grounded db db'
  gains :
      (env : Env) (id : ℕ) (a : Approved)
      → model_of id db ≡ none
      → db'.models ≡ fresh_model env id a ∷ db.models
      → Logs db db'
      → Grounded db db'

pub control-Grounded :
    (now id : ℕ) (a : Option Action) (db : Db) (r : View) (db' : Db)
    → control now id a db ≡ ok (r, db')
    → Grounded db db'
unfolding control
control-Grounded now id none db r db' h = absurd (ground arith)
control-Grounded now id (some a) db r db' h = elim (Option-cases (job_of id db)) [
  | inl e ↦ absurd (ground (arith, e))
  | inr (row, e) ↦ elim (Bool-cases (reached a row.status)) [
    | inl t ↦ still (ground (arith, e, t)) (inl (ground (arith, e, t)))
    | inr t ↦
        still (ground (arith, e, t)) (inr (work (target a) id, λ k. refl, ground (arith, e, t)))
  ]
]

lease-Grounded : (now token : ℕ) (row : Job) (db : Db) → Grounded db (lease now token row db).1
lease-Grounded now token row db = elim (Bool-cases (task_eligible row.task_id db)) [
  | inr t ↦ still (rw t refl) (inr (work paused row.id, λ k. refl, rw t refl))
  | inl t ↦ elim (Bool-cases (leb max_attempts row.attempts)) [
    | inl a ↦ still (rw (t, a) refl) (inr (work failed row.id, λ k. refl, rw (t, a) refl))
    | inr a ↦ still (rw (t, a) refl) (inr (claimed row.id, λ k. refl, rw (t, a) refl))
  ]
]

pub claim-Grounded :
    (now token : ℕ) (ready : Bool) (db : Db) → Grounded db (claim now token ready db).1
unfolding claim
claim-Grounded now token ready db = elim (Option-cases (next_job now ready db)) [
  | inl e ↦ still (rw (e, claim) refl) (inl (rw (e, claim) refl))
  | inr (row, e) ↦ rw (e, claim) (lease-Grounded now token row db)
]

settle-Grounded :
    (now : ℕ) (c : Claim) (r : WorkerResult) (row : Job) (db : Db) (b : Bool) (db' : Db)
    → JobIsValid db.checkpoints row
    → settle now c r row db ≡ ok (b, db')
    → Grounded db db'
unfolding settle
settle-Grounded now c r row db b db' jv h = elim (Bool-cases (owns now c row)) [
  | inr e ↦ still (ground (arith, e)) (inl (ground (arith, e)))
  | inl e ↦ elim (Bool-cases (task_eligible row.task_id db)) [
    | inr t ↦
        still (ground (arith, e, t)) (inr (work paused row.id, λ k. refl, ground (arith, e, t)))
    | inl t ↦ elim (Bool-cases (may_retry row.kind r)) [
      | inl m ↦
          still (ground (arith, e, t, m))
            (inr (retry_queued row.id, λ k. refl, ground (arith, e, t, m)))
      | inr m ↦
          let c' = commit-eq now r row db jv (owns-running now c row e) in
          still (ground (arith, e, t, m, c'))
            (inr (checkpoint_recorded row.id, λ k. refl, ground (arith, e, t, m, c')))
    ]
  ]
]

pub checkpoint-Grounded :
    (env : Env) (now : ℕ) (c : Claim) (r : WorkerResult) (db : Db) (b : Bool) (db' : Db)
    → DbIsValid db
    → checkpoint env now c r db ≡ ok (b, db')
    → Grounded db db'
unfolding checkpoint
checkpoint-Grounded env now c r db b db' v h = elim (Option-cases (job_of c.id db)) [
  | inl e ↦ absurd (ground (arith, e))
  | inr (row, e) ↦
      settle-Grounded now c r row db b db'
        (find-All (λ (j : Job). j.id == c.id) (JobIsValid db.checkpoints) db.jobs row v.valid e)
        (ground (arith, e))
]
