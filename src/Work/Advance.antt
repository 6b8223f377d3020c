-- ===== src/Work/Advance.antt =====
-- src/leon_control_plane/work_queue.py: what a committed step does to its job and its checkpoints.
use leon_ai_assistant.Base.{
  ℕ, ◌≡◌, refl, ◌⊎◌, inl, inr, Bool, true, false, ◌&&◌, List, ◌∷◌, none, some, ◌==◌, arith,
  Bool-cases, ◌≢◌, All-map_of, is_some, ◌∙◌, sym, subst,
}
use leon_ai_assistant.Base.Rows.{find, find-eq-none, find-test, count}
use leon_ai_assistant.Base.Keys.{
  update-by_key, Unique-update, is_some-by_key-update, count-update-le,
}
use leon_ai_assistant.Db.{
  Db, Job, running, failed, Checkpoint, WorkerResult, ok, job_of, set_job, log, checkpoint_recorded,
}
use leon_ai_assistant.Work.{is_open, insert_checkpoint, open_jobs}
use leon_ai_assistant.Work.Claim.{Claim}
use leon_ai_assistant.Work.Checkpoints.{owns, advanced, commit, is_true}
use leon_ai_assistant.Work.Invariant.{JobIsValid, DbIsValid, StepBelow}

abbrev pub recorded : ℕ → WorkerResult → Job → Checkpoint
recorded now r row = record { job_id = row.id; step = row.next_step; result = r; recorded_at = now }

-- A running job has no checkpoint for its next step.
fresh-step :
    (cs : List Checkpoint) (row : Job)
    → JobIsValid cs row
    → row.status ≢ failed
    → find (λ (d : Checkpoint). d.job_id == row.id && d.step == row.next_step) cs ≡ none
fresh-step cs row v n = find-eq-none _ cs (
    All-map_of (StepBelow row)
      (λ (d : Checkpoint). (d.job_id == row.id && d.step == row.next_step) ≡ false) cs
      (λ d h. below d h (Bool-cases (d.job_id == row.id))) v.steps)
  where
    below :
        (d : Checkpoint)
        → StepBelow row d
        → (d.job_id == row.id) ≡ true ⊎ (d.job_id == row.id) ≡ false
        → (d.job_id == row.id && d.step == row.next_step) ≡ false
    below d h (inl e) = elim (h e) [ inl lt ↦ ground (arith, e) | inr (_, f) ↦ absurd (n f) ]
    below d h (inr e) = rw e refl

other-JobIsValid :
    (cs : List Checkpoint) (c : Checkpoint) (x : Job)
    → JobIsValid cs x
    → x.id ≢ c.job_id
    → JobIsValid (c ∷ cs) x
unfolding count
other-JobIsValid cs c x v n = record {
  leased = v.leased;
  timed = v.timed;
  tries = v.tries;
  within = v.within;
  unfinished = v.unfinished;
  finished = v.finished;
  steps = (λ e. absurd (ground arith), v.steps);
  counted = ground (arith, v.counted);
}

advanced-JobIsValid :
    (cs : List Checkpoint) (now : ℕ) (r : WorkerResult) (row : Job) (b : Bool)
    → is_true r.ok ≡ b
    → is_open row.status ≡ true
    → JobIsValid cs row
    → JobIsValid (recorded now r row ∷ cs) (advanced now b row)
unfolding advanced count
advanced-JobIsValid cs now r row true e o v = record {
  leased = ground arith;
  timed = ground arith;
  tries = omega arith;
  within = ground (arith, v.unfinished o);
  unfinished = λ h. ground (arith, v.unfinished o);
  finished = λ h. ground arith;
  steps = (
    λ h. inl (omega arith),
    All-map_of (StepBelow row) (StepBelow (advanced now true row)) cs
        (λ c h x. inl (ground (arith, h x))) v.steps,
  );
  counted = ground (arith, e, v.counted);
}
advanced-JobIsValid cs now r row false e o v = record {
  leased = refl;
  timed = refl;
  tries = omega arith;
  within = v.within;
  unfinished = λ h. cc;
  finished = λ h. cc;
  steps = (
    λ h. inr (refl, refl),
    All-map_of (StepBelow row) (StepBelow (advanced now false row)) cs
        (λ c h x. inl (ground (arith, h x))) v.steps,
  );
  counted = ground (arith, e, v.counted);
}

-- The database after the last branch of `checkpoint`.
abbrev pub committed : ℕ → WorkerResult → Job → Db → Db
committed now r row db = log (checkpoint_recorded row.id) (
    set_job row.id (advanced now (is_true r.ok))
      (record db { checkpoints = recorded now r row ∷ db.checkpoints }))

pub commit-eq :
    (now : ℕ) (r : WorkerResult) (row : Job) (db : Db)
    → JobIsValid db.checkpoints row
    → row.status ≡ running
    → commit now r row db ≡ ok (true, committed now r row db)
unfolding commit insert_checkpoint
commit-eq now r row db v e =
    let n : row.status ≢ failed = λ f. cc (e, f) in rw (fresh-step db.checkpoints row v n) refl

pub advanced-open :
    (now : ℕ) (b : Bool) (row : Job) → row.status ≡ running → is_open row.status ≡ true
advanced-open now b row e = rw e refl

pub committed-DbIsValid :
    (now : ℕ) (r : WorkerResult) (row : Job) (db : Db)
    → row.status ≡ running
    → job_of row.id db ≡ some row
    → DbIsValid db
    → DbIsValid (committed now r row db)
unfolding open_jobs advanced
committed-DbIsValid now r row db e found v =
    let f = advanced now (is_true r.ok) in
    let c = recorded now r row in
    let o = advanced-open now (is_true r.ok) row e in
    record {
      ids = Unique-update (λ (j : Job). j.id) _ f db.jobs (λ j. refl) v.ids;
      requests = Unique-update (λ (j : Job). j.request_id) _ f db.jobs (λ j. refl) v.requests;
      valid =
          update-by_key (λ (j : Job). j.id) (JobIsValid db.checkpoints)
            (JobIsValid (c ∷ db.checkpoints)) row.id row f db.jobs v.ids found
            (advanced-JobIsValid db.checkpoints now r row (is_true r.ok) refl o)
            (λ x h n. other-JobIsValid db.checkpoints c x h n) v.valid;
      refs = (
        is_some-by_key-update (λ (j : Job). j.id) row.id row.id f db.jobs (λ j. refl)
            ∙ rw found refl,
        All-map_of (λ (d : Checkpoint). is_some (job_of d.job_id db) ≡ true)
            (λ (d : Checkpoint). is_some (job_of d.job_id (set_job row.id f db)) ≡ true)
            db.checkpoints
            (λ d h.
              is_some-by_key-update (λ (j : Job). j.id) row.id d.job_id f db.jobs (λ j. refl) ∙ h)
            v.refs,
      );
      bounded = omega (
        arith,
        count-update-le (λ (j : Job). j.id) (λ (j : Job). is_open j.status) row.id row f db.jobs
            v.ids found (λ _. o),
        v.bounded,
      );
    }

pub owns-running : (now : ℕ) (c : Claim) (row : Job) → owns now c row ≡ true → row.status ≡ running
unfolding owns
owns-running now c row h = ground arith

pub job_of-id : (id : ℕ) (db : Db) (row : Job) → job_of id db ≡ some row → row.id ≡ id
job_of-id id db row h =
    let t = find-test (λ (j : Job). j.id == id) db.jobs row h in ground (arith, t)

pub job_of_self :
    (id : ℕ) (db : Db) (row : Job) → job_of id db ≡ some row → job_of row.id db ≡ some row
job_of_self id db row h = subst (λ k. job_of k db ≡ some row) (sym (job_of-id id db row h)) h
