-- ===== src/Work/Fresh.antt =====
-- src/leon_control_plane/work_queue.py: a new job under a free id, against the invariant.
use leon_ai_assistant.Base.{
  ℕ, ◌≤◌, ◌<◌, ◌≡◌, refl, inl, inr, true, false, ◌||◌, List, ◌∷◌, Option, none, some, ◌==◌, arith,
  Option-cases, All-map_of, All, is_some, leb, ◌∙◌, sym, subst, subst₂,
}
use leon_ai_assistant.Base.Rows.{find, count, count-eq-zero, find-none-All, find-test, find-All}
use leon_ai_assistant.Base.Keys.{Unique}
use leon_ai_assistant.Db.{Db, Job, Kind, Checkpoint, queued, ok, job_of}
use leon_ai_assistant.Work.{total_steps, is_open, open_jobs, max_open_jobs, insert_job}
use leon_ai_assistant.Work.Enqueue.{fresh_job}
use leon_ai_assistant.Work.Invariant.{JobIsValid, DbIsValid, StepBelow, passed}

-- No job of the table has the id or the request id of the new one.
pub insert_job-free :
    (j : Job) (db db' : Db)
    → insert_job j db ≡ ok db'
    → All (λ (k : Job). (k.id == j.id || k.request_id == j.request_id) ≡ false) db.jobs
      × (db' ≡ record db { jobs = j ∷ db.jobs })
unfolding insert_job
insert_job-free j db db' h =
    elim (Option-cases (find (λ (k : Job). k.id == j.id || k.request_id == j.request_id) db.jobs)) [
      | inl e ↦ (find-none-All _ db.jobs e, ground (arith, e))
      | inr (k, e) ↦ absurd (ground (arith, e))
    ]

-- A job as `enqueue` makes it.
pub record IsFresh (j : Job) : Type 0 where
  idle : j.status ≡ queued
  first : j.next_step ≡ 0
  untried : j.attempts ≡ 0
  no_token : j.lease_token ≡ none
  no_lease : j.lease_until ≡ none

pub fresh_job-IsFresh :
    (now id request_id task_id : ℕ) (kind : Kind)
    → IsFresh (fresh_job now id request_id task_id kind)
unfolding fresh_job
fresh_job-IsFresh now id request_id task_id kind = ground arith

abbrev pub Free : Job → Db → Type 0
Free j db = All (λ (k : Job). (k.id == j.id || k.request_id == j.request_id) ≡ false) db.jobs

-- No checkpoint belongs to a job that is not in the table.
no-checkpoints :
    (j : Job) (db : Db)
    → Free j db
    → DbIsValid db
    → All (λ (c : Checkpoint). (c.job_id == j.id) ≡ false) db.checkpoints
no-checkpoints j db free v =
    All-map_of (λ (c : Checkpoint). is_some (job_of c.job_id db) ≡ true)
      (λ (c : Checkpoint). (c.job_id == j.id) ≡ false) db.checkpoints
      (λ c h. other c (job_of c.job_id db) refl h) v.refs
  where
    other :
        (c : Checkpoint) (o : Option Job)
        → job_of c.job_id db ≡ o
        → is_some (job_of c.job_id db) ≡ true
        → (c.job_id == j.id) ≡ false
    other c none e h = absurd (ground (arith, e))
    other c (some k) e h =
        let t = find-test (λ (k : Job). k.id == c.job_id) db.jobs k e in
        let f =
          find-All (λ (k : Job). k.id == c.job_id)
            (λ (k : Job). (k.id == j.id || k.request_id == j.request_id) ≡ false) db.jobs k free
            e in
        ground (arith, t, f)

total_steps-pos : (k : Kind) → 0 < total_steps k
unfolding total_steps
total_steps-pos k = ground arith

fresh-JobIsValid :
    (j : Job) (cs : List Checkpoint)
    → IsFresh j
    → All (λ (c : Checkpoint). (c.job_id == j.id) ≡ false) cs
    → JobIsValid cs j
fresh-JobIsValid j cs f n = record {
  leased = rw (f.no_token, f.idle) refl;
  timed = rw (f.no_lease, f.idle) refl;
  tries = omega (arith, f.untried);
  within = omega (arith, f.first);
  unfinished = λ h. omega (arith, f.first, total_steps-pos j.kind);
  finished = λ h. cc (h, f.idle);
  steps =
      All-map_of (λ (c : Checkpoint). (c.job_id == j.id) ≡ false) (StepBelow j) cs
        (λ c h t. absurd (ground (arith, h, t))) n;
  counted =
      count-eq-zero (passed j.id) cs (
        All-map_of (λ (c : Checkpoint). (c.job_id == j.id) ≡ false)
          (λ (c : Checkpoint). passed j.id c ≡ false) cs (λ c h. rw h refl) n)
      ∙ sym f.first;
}

added-DbIsValid :
    (j : Job) (db : Db)
    → IsFresh j
    → Free j db
    → open_jobs db < max_open_jobs
    → DbIsValid db
    → DbIsValid (record db { jobs = j ∷ db.jobs })
unfolding open_jobs count find
added-DbIsValid j db f free room v = record {
  ids = (
    All-map_of _ (λ (k : Job). (k.id == j.id) ≡ false) db.jobs (λ k h. ground (arith, h)) free,
    v.ids,
  );
  requests = (
    All-map_of _ (λ (k : Job). (k.request_id == j.request_id) ≡ false) db.jobs
        (λ k h. ground (arith, h)) free,
    v.requests,
  );
  valid = (fresh-JobIsValid j db.checkpoints f (no-checkpoints j db free v), v.valid);
  refs =
      All-map_of (λ (c : Checkpoint). is_some (job_of c.job_id db) ≡ true) _ db.checkpoints
        (λ c h. ground (arith, h)) v.refs;
  bounded = rw f.idle (omega (arith, room));
}

-- The invariant speaks of two tables only.
pub frame-DbIsValid :
    (db db' : Db)
    → db'.jobs ≡ db.jobs
    → db'.checkpoints ≡ db.checkpoints
    → DbIsValid db
    → DbIsValid db'
unfolding open_jobs
frame-DbIsValid db db' e c v = record {
  ids = subst (λ js. Unique (λ (j : Job). j.id) js) (sym e) v.ids;
  requests = subst (λ js. Unique (λ (j : Job). j.request_id) js) (sym e) v.requests;
  valid = subst₂ (λ js cs. All (JobIsValid cs) js) (sym e) (sym c) v.valid;
  refs =
      subst₂
        (λ js cs.
          All (λ (d : Checkpoint). is_some (find (λ (j : Job). j.id == d.job_id) js) ≡ true) cs)
        (sym e) (sym c) v.refs;
  bounded =
      subst (λ js. count (λ (j : Job). is_open j.status) js ≤ max_open_jobs) (sym e) v.bounded;
}

pub insert_job-DbIsValid :
    (j : Job) (db db' : Db)
    → IsFresh j
    → (leb max_open_jobs (open_jobs db)) ≡ false
    → insert_job j db ≡ ok db'
    → DbIsValid db
    → DbIsValid db'
insert_job-DbIsValid j db db' f room e v =
    let (free, q) = insert_job-free j db db' e in
    rw q (added-DbIsValid j db f free (ground (arith, room)) v)
