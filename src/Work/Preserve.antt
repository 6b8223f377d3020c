-- ===== src/Work/Preserve.antt =====
-- src/leon_control_plane/work_queue.py: `control` and `claim`, against the invariant.
use leon_ai_assistant.Base.{
  ℕ, ◌+◌, ◌≤◌, ◌≡◌, refl, inl, inr, Bool, true, false, List, Option, none, some, arith, Bool-cases,
  Option-cases, ◌≢◌, All-map_of, is_some, leb,
}
use leon_ai_assistant.Base.Rows.{first_by-All, where_rows-All, where_rows}
use leon_ai_assistant.Base.Keys.{by_key_self}
use leon_ai_assistant.Db.{
  Db, Job, Status, running, paused, failed, succeeded, no_error, claimed, JobError, Checkpoint,
  Event, ok, job_of, set_job, log, work, task_eligible,
}
use leon_ai_assistant.Work.{View, max_attempts, lease_seconds, is_open, is_running, release}
use leon_ai_assistant.Work.Control.{
  Action, pause, resume, cancel, target, allowed, reached, moved, control,
}
use leon_ai_assistant.Work.Claim.{claimable, before, next_job, leased, lease, claim}
use leon_ai_assistant.Work.Invariant.{
  JobIsValid, DbIsValid, KeepsKeys, StepBelow, set_job-DbIsValid,
}

-- A job moved to another status and lease, at the step where it is.
abbrev recast : Status → ℕ → Option ℕ → Option ℕ → JobError → ℕ → Job → Job
recast s n t u e now j = record j {
  status = s;
  attempts = n;
  lease_token = t;
  lease_until = u;
  error = e;
  updated_at = now;
}

recast-JobIsValid :
    (cs : List Checkpoint) (j : Job) (s : Status) (n : ℕ) (t u : Option ℕ) (e : JobError) (now : ℕ)
    → is_some t ≡ is_running s
    → is_some u ≡ is_running s
    → n ≤ max_attempts
    → s ≢ succeeded
    → is_open j.status ≡ true
    → JobIsValid cs j
    → JobIsValid cs (recast s n t u e now j)
recast-JobIsValid cs j s n t u e now ht hu hn hs o v = record {
  leased = ht;
  timed = hu;
  tries = hn;
  within = v.within;
  unfinished = λ _. v.unfinished o;
  finished = λ x. absurd (hs x);
  steps =
      All-map_of (StepBelow j) (StepBelow (recast s n t u e now j)) cs
        (λ c h x. inl (ground (arith, h x))) v.steps;
  counted = v.counted;
}

release-KeepsKeys : (s : Status) (e : JobError) (now : ℕ) → KeepsKeys (release s e now)
unfolding release
release-KeepsKeys s e now = record { id = λ j. refl; request_id = λ j. refl }

-- Giving up the lease of an open job: to `paused`, `queued` or `failed`.
pub release-DbIsValid :
    (db : Db) (row : Job) (s : Status) (e : JobError) (now : ℕ) (ev : Event)
    → is_running s ≡ false
    → s ≢ succeeded
    → is_open row.status ≡ true
    → job_of row.id db ≡ some row
    → DbIsValid db
    → DbIsValid (log ev (set_job row.id (release s e now) db))
unfolding release
release-DbIsValid db row s e now ev r n o found v =
    set_job-DbIsValid db row.id row (release s e now) ev v found (release-KeepsKeys s e now)
      (λ h.
        recast-JobIsValid db.checkpoints row s row.attempts none none e now (rw r) (rw r) h.tries n
          o h)
      (λ _. o)

-- A job that satisfies the WHERE clause of `claim` is open.
pub claimable-open :
    (now : ℕ) (ready : Bool) (db : Db) (j : Job)
    → claimable now ready db j ≡ true
    → is_open j.status ≡ true
unfolding claimable
claimable-open now ready db j h = ground arith

-- What the query of `claim` returns is a row of the table that satisfies the WHERE clause.
pub next_job-found :
    (now : ℕ) (ready : Bool) (db : Db) (row : Job)
    → DbIsValid db
    → next_job now ready db ≡ some row
    → (claimable now ready db row ≡ true) × (job_of row.id db ≡ some row)
unfolding next_job
next_job-found now ready db row v h =
    first_by-All (before now db)
      (λ (x : Job). (claimable now ready db x ≡ true) × (job_of x.id db ≡ some x))
      (where_rows (claimable now ready db) db.jobs) row
      (where_rows-All (claimable now ready db) (λ (x : Job). job_of x.id db ≡ some x) db.jobs
        (by_key_self (λ (j : Job). j.id) db.jobs v.ids))
      h

lease-DbIsValid :
    (now token : ℕ) (row : Job) (db : Db)
    → is_open row.status ≡ true
    → job_of row.id db ≡ some row
    → DbIsValid db
    → DbIsValid (lease now token row db).1
unfolding leased
lease-DbIsValid now token row db o found v = elim (Bool-cases (task_eligible row.task_id db)) [
  | inr e ↦ rw e (release-DbIsValid db row paused _ now _ refl (λ x. cc) o found v)
  | inl e ↦ elim (Bool-cases (leb max_attempts row.attempts)) [
    | inl full ↦ rw (e, full) (release-DbIsValid db row failed _ now _ refl (λ x. cc) o found v)
    | inr room ↦
        rw (e, room)
          (set_job-DbIsValid db row.id row (leased now token) (claimed row.id) v found
            (record { id = λ j. refl; request_id = λ j. refl })
            (λ h.
              recast-JobIsValid db.checkpoints row running (row.attempts + 1) (some token)
                (some (now + lease_seconds)) no_error now refl refl (ground (arith, room)) (λ x. cc)
                o h)
            (λ _. o))
  ]
]

-- `claim` keeps the invariant on every branch: no job, an ineligible task, too many attempts, a lease.
pub claim-DbIsValid :
    (now token : ℕ) (ready : Bool) (db : Db) → DbIsValid db → DbIsValid (claim now token ready db).1
unfolding claim
claim-DbIsValid now token ready db v = elim (Option-cases (next_job now ready db)) [
  | inl e ↦ rw (e, claim) v
  | inr (row, e) ↦
      let (c, found) = next_job-found now ready db row v e in
      rw (e, claim) (lease-DbIsValid now token row db (claimable-open now ready db row c) found v)
]

target-idle : (a : Action) → false ≡ is_running (target a)
target-idle pause = refl
target-idle resume = refl
target-idle cancel = refl

target-unfinished : (a : Action) → target a ≢ succeeded
target-unfinished pause h = cc
target-unfinished resume h = cc
target-unfinished cancel h = cc

pub allowed-open : (a : Action) (s : Status) → allowed a s ≡ true → is_open s ≡ true
allowed-open a s h = ground arith

moved-DbIsValid :
    (now id : ℕ) (a : Action) (row : Job) (ev : Event) (db : Db)
    → allowed a row.status ≡ true
    → job_of id db ≡ some row
    → DbIsValid db
    → DbIsValid (log ev (set_job id (moved (target a) now) db))
unfolding moved
moved-DbIsValid now id a row ev db permitted found v =
    set_job-DbIsValid db id row (moved (target a) now) ev v found
      (record { id = λ j. refl; request_id = λ j. refl })
      (λ h.
        recast-JobIsValid db.checkpoints row (target a) row.attempts none none row.error now
          (target-idle a) (target-idle a) h.tries (target-unfinished a)
          (allowed-open a row.status permitted) h)
      (λ _. allowed-open a row.status permitted)

-- `control` keeps the invariant whenever it succeeds.
pub control-DbIsValid :
    (now id : ℕ) (a : Option Action) (db : Db) (r : View) (db' : Db)
    → DbIsValid db
    → control now id a db ≡ ok (r, db')
    → DbIsValid db'
unfolding control
control-DbIsValid now id none db r db' v h = absurd (ground arith)
control-DbIsValid now id (some a) db r db' v h = elim (Option-cases (job_of id db)) [
  | inl e ↦ absurd (ground (arith, e))
  | inr (row, e) ↦ elim (Bool-cases (reached a row.status)) [
    | inl t ↦ ground (arith, e, t)
    | inr t ↦ elim (Bool-cases (allowed a row.status)) [
      | inl p ↦ ground (arith, e, t, p, moved-DbIsValid now id a row (work (target a) id) db p e v)
      | inr p ↦ absurd (ground (arith, e, t, p))
    ]
  ]
]
