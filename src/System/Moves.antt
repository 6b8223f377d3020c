-- ===== src/System/Moves.antt =====
-- src/leon_control_plane/work_queue.py: what an operation may do to the table work_jobs: nothing, a change
-- of one open job, or a new job under a free id.
use leon_ai_assistant.Base.{
  ℕ, ◌≡◌, refl, ◌⊎◌, inl, inr, Bool, true, ◌∷◌, Option, none, some, arith, Bool-cases, Option-cases,
  leb, ◌==◌, ◌+◌, ◌*◌, ◌≤◌,
}
use leon_ai_assistant.Base.Rows.{update}
use leon_ai_assistant.Db.{
  Db, Job, Status, JobError, paused, failed, queued, parent_task_ineligible, recovery_limit,
  local_model_retry, WorkerResult, ok, job_of, task_eligible, is_local,
}
use leon_ai_assistant.Model.{Env, OpenAiConfig, LocalConfig}
use leon_ai_assistant.Model.Ledger.{Begun, begin, extended}
use leon_ai_assistant.Model.Spending.{Begins, stored, lost, sends, begin-cases}
use leon_ai_assistant.Work.{View, is_open, release, max_attempts}
use leon_ai_assistant.Work.Claim.{Claim, claim, next_job, lease, leased}
use leon_ai_assistant.Work.Control.{Action, control, reached, allowed, target, moved}
use leon_ai_assistant.Work.Checkpoints.{checkpoint, settle, owns, may_retry, advanced, is_true}
use leon_ai_assistant.Work.Invariant.{DbIsValid, JobIsValid}
use leon_ai_assistant.Base.Rows.{find-All}
use leon_ai_assistant.Work.Preserve.{allowed-open, claimable-open, next_job-found}
use leon_ai_assistant.Work.Advance.{owns-running, job_of_self, commit-eq}
use leon_ai_assistant.Work.Fresh.{Free}

-- The job is the same piece of work, and not at an earlier step.
pub record Grows (a b : Job) : Type 0 where
  pub request_id : b.request_id ≡ a.request_id
  pub task_id : b.task_id ≡ a.task_id
  pub kind : b.kind ≡ a.kind
  pub created_at : b.created_at ≡ a.created_at
  pub next_step : a.next_step ≤ b.next_step

-- What a change of a job does to its lease token: nothing, it is dropped, or it is the one handed out.
abbrev pub Leases : Option ℕ → Job → Job → Type 0
Leases granted a b =
    (b.lease_token ≡ a.lease_token) ⊎ ((b.lease_token ≡ none) ⊎ (b.lease_token ≡ granted))

release-Grows : (s : Status) (e : JobError) (now : ℕ) (j : Job) → Grows j (release s e now j)
unfolding release
release-Grows s e now j = ground arith

leased-Grows : (now token : ℕ) (j : Job) → Grows j (leased now token j)
unfolding leased
leased-Grows now token j = ground arith

moved-Grows : (s : Status) (now : ℕ) (j : Job) → Grows j (moved s now j)
unfolding moved
moved-Grows s now j = ground arith

advanced-Grows : (now : ℕ) (b : Bool) (j : Job) → Grows j (advanced now b j)
unfolding advanced
advanced-Grows now b j = ground arith

extended-Grows : (now window token : ℕ) (j : Job) → Grows j (extended now window token j)
unfolding extended
extended-Grows now window token j = ground arith

extended-lease :
    (now window token : ℕ) (j : Job) → (extended now window token j).lease_token ≡ j.lease_token
unfolding extended
extended-lease now window token j = ground arith

pub data Moves (granted : Option ℕ) (db db' : Db) : Type 0 where
  same : db'.jobs ≡ db.jobs → Moves granted db db'
  one :
      (k : ℕ) (row : Job) (f : Job → Job)
      → job_of k db ≡ some row
      → is_open row.status ≡ true
      → ((j : Job) → (f j).id ≡ j.id)
      → Grows row (f row)
      → Leases granted row (f row)
      → db'.jobs ≡ update (λ (j : Job). j.id == k) f db.jobs
      → Moves granted db db'
  added : (j : Job) → Free j db → db'.jobs ≡ j ∷ db.jobs → Moves granted db db'

pub control-Moves :
    (now id : ℕ) (a : Option Action) (db : Db) (r : View) (db' : Db)
    → control now id a db ≡ ok (r, db')
    → Moves none db db'
unfolding control moved
control-Moves now id none db r db' h = absurd (ground arith)
control-Moves now id (some a) db r db' h = elim (Option-cases (job_of id db)) [
  | inl e ↦ absurd (ground (arith, e))
  | inr (row, e) ↦ elim (Bool-cases (reached a row.status)) [
    | inl t ↦ same (ground (arith, e, t))
    | inr t ↦ elim (Bool-cases (allowed a row.status)) [
      | inl p ↦
          one id row (moved (target a) now) e (allowed-open a row.status p) (λ j. refl)
            (moved-Grows (target a) now row) (inr (inl refl)) (ground (arith, e, t, p))
      | inr p ↦ absurd (ground (arith, e, t, p))
    ]
  ]
]

lease-Moves :
    (now token : ℕ) (row : Job) (db : Db)
    → is_open row.status ≡ true
    → job_of row.id db ≡ some row
    → Moves (some token) db (lease now token row db).1
unfolding release leased
lease-Moves now token row db o found = elim (Bool-cases (task_eligible row.task_id db)) [
  | inr t ↦
      one row.id row (release paused parent_task_ineligible now) found o (λ j. refl)
        (release-Grows paused parent_task_ineligible now row) (inr (inl refl)) (rw t refl)
  | inl t ↦ elim (Bool-cases (leb max_attempts row.attempts)) [
    | inl a ↦
        one row.id row (release failed recovery_limit now) found o (λ j. refl)
          (release-Grows failed recovery_limit now row) (inr (inl refl)) (rw (t, a) refl)
    | inr a ↦
        one row.id row (leased now token) found o (λ j. refl) (leased-Grows now token row)
          (inr (inr refl)) (rw (t, a) refl)
  ]
]

pub claim-Moves :
    (now token : ℕ) (ready : Bool) (db : Db)
    → DbIsValid db
    → Moves (some token) db (claim now token ready db).1
unfolding claim
claim-Moves now token ready db v = elim (Option-cases (next_job now ready db)) [
  | inl e ↦ same (rw (e, claim) refl)
  | inr (row, e) ↦
      let (w, found) = next_job-found now ready db row v e in
      rw (e, claim) (lease-Moves now token row db (claimable-open now ready db row w) found)
]

settle-Moves :
    (now : ℕ) (c : Claim) (r : WorkerResult) (row : Job) (db : Db) (b : Bool) (db' : Db)
    → job_of row.id db ≡ some row
    → JobIsValid db.checkpoints row
    → settle now c r row db ≡ ok (b, db')
    → Moves none db db'
unfolding settle release advanced
settle-Moves now c r row db b db' found jv h = elim (Bool-cases (owns now c row)) [
  | inr e ↦ same (ground (arith, e))
  | inl e ↦
      let s = owns-running now c row e in
      let o : is_open row.status ≡ true = rw s refl in
      elim (Bool-cases (task_eligible row.task_id db)) [
        | inr t ↦
            one row.id row (release paused parent_task_ineligible now) found o (λ j. refl)
              (release-Grows paused parent_task_ineligible now row) (inr (inl refl))
              (ground (arith, e, t))
        | inl t ↦ elim (Bool-cases (may_retry row.kind r)) [
          | inl m ↦
              one row.id row (release queued local_model_retry now) found o (λ j. refl)
                (release-Grows queued local_model_retry now row) (inr (inl refl))
                (ground (arith, e, t, m))
          | inr m ↦
              one row.id row (advanced now (is_true r.ok)) found o (λ j. refl)
                (advanced-Grows now (is_true r.ok) row) (inr (inl refl))
                (ground (arith, e, t, m, commit-eq now r row db jv s))
        ]
      ]
]

pub checkpoint-Moves :
    (env : Env) (now : ℕ) (c : Claim) (r : WorkerResult) (db : Db) (b : Bool) (db' : Db)
    → DbIsValid db
    → checkpoint env now c r db ≡ ok (b, db')
    → Moves none db db'
unfolding checkpoint
checkpoint-Moves env now c r db b db' v h = elim (Option-cases (job_of c.id db)) [
  | inl e ↦ absurd (ground (arith, e))
  | inr (row, e) ↦
      settle-Moves now c r row db b db' (job_of_self c.id db row e)
        (find-All (λ (j : Job). j.id == c.id) (JobIsValid db.checkpoints) db.jobs row v.valid e)
        (ground (arith, e))
]

pub begin-Moves :
    (env : Env) (config : OpenAiConfig) (local : LocalConfig) (now : ℕ) (c : Claim) (db : Db)
    → (b : Begun) (db' : Db) → begin env config local now c db ≡ ok (b, db')
    → Moves none db db'
unfolding extended
begin-Moves env config local now c db b db' h = from (begin-cases env config local now c db b db' h)
  where
    from : Begins env config local now c db b db' → Moves none db db'
    from (stored r e q) = same (rw q refl)
    from (lost row m e p l q r) = same (rw r refl)
    from (sends row m p s) = elim (Bool-cases (is_local m.request.payload)) [
      | inl l ↦
          one row.id row (extended now (2 * local.timeout_seconds + 30) c.token)
            (job_of_self c.id db row s.job_row) (rw (owns-running now c row s.owner) refl)
            (λ j. ground arith) (extended-Grows now (2 * local.timeout_seconds + 30) c.token row)
            (inl (extended-lease now (2 * local.timeout_seconds + 30) c.token row))
            (ground (arith, s.result, l))
      | inr l ↦ same (ground (arith, s.result, l))
    ]
