-- ===== src/System/Jobs.antt =====
-- src/leon_control_plane/work_queue.py, src/leon_control_plane/model_work.py: the queue's invariant along
-- the steps of the system.
use leon_ai_assistant.Base.{ℕ, ◌≡◌, refl, inl, inr, some, arith, Bool-cases, List, ◌+◌, ◌*◌}
use leon_ai_assistant.Db.{
  Db, Job, running, Event, Checkpoint, WorkerResult, ok, job_of, set_job, log, is_local, Payload,
  model_send_authorized,
}
use leon_ai_assistant.Model.{Env, OpenAiConfig, LocalConfig}
use leon_ai_assistant.Model.Ledger.{Begun, begin, finish, extended, sending_db}
use leon_ai_assistant.Model.Spending.{Begins, stored, lost, sends, begin-cases}
use leon_ai_assistant.Work.Claim.{Claim}
use leon_ai_assistant.Work.Checkpoints.{is_token}
use leon_ai_assistant.Work.Advance.{owns-running, job_of_self}
use leon_ai_assistant.Work.Commit.{checkpoint-DbIsValid}
use leon_ai_assistant.Work.Invariant.{DbIsValid, JobIsValid, set_job-DbIsValid}
use leon_ai_assistant.Work.Preserve.{claim-DbIsValid, control-DbIsValid}
use leon_ai_assistant.Work.Admit.{enqueue-DbIsValid, enqueue_agent_run-DbIsValid}
use leon_ai_assistant.Work.Fresh.{frame-DbIsValid}
use leon_ai_assistant.System.Receipts.{reconcile-frame, record_usage-frame}
use leon_ai_assistant.System.{
  World, Step, Reach, here, next, enqueues, binds, controls, claims, checkpoints, begins,
  finishes_local, finishes, crashes, reconciles, records, elsewhere,
}

extended-JobIsValid :
    (now window token : ℕ) (cs : List Checkpoint) (j : Job)
    → j.status ≡ running
    → JobIsValid cs j
    → JobIsValid cs (extended now window token j)
unfolding extended
extended-JobIsValid now window token cs j s v = elim (Bool-cases (is_token j.lease_token token)) [
  | inr e ↦ rw e v
  | inl e ↦ rw e (record {
    leased = v.leased;
    timed = rw s refl;
    tries = v.tries;
    within = v.within;
    unfinished = v.unfinished;
    finished = v.finished;
    steps = v.steps;
    counted = v.counted;
  })
]

-- A longer lease keeps the invariant.
extended-DbIsValid :
    (now window token : ℕ) (row : Job) (e : Event) (db : Db)
    → row.status ≡ running
    → job_of row.id db ≡ some row
    → DbIsValid db
    → DbIsValid (log e (set_job row.id (extended now window token) db))
unfolding extended
extended-DbIsValid now window token row e db s found v =
    set_job-DbIsValid db row.id row (extended now window token) e v found
      (record { id = λ j. ground arith; request_id = λ j. ground arith })
      (extended-JobIsValid now window token db.checkpoints row s) (λ o. rw s refl)

sending-DbIsValid :
    (env : Env) (config : OpenAiConfig) (local : LocalConfig) (now : ℕ) (c : Claim) (row : Job)
    → (p : Payload) (db : Db) → row.status ≡ running
    → job_of row.id db ≡ some row
    → DbIsValid db
    → DbIsValid (sending_db env config local now c row p db)
sending-DbIsValid env config local now c row p db s found v = elim (Bool-cases (is_local p)) [
  | inl l ↦
      frame-DbIsValid
        (log (model_send_authorized row.id)
          (set_job row.id (extended now (2 * local.timeout_seconds + 30) c.token) db))
        _ (rw l refl) (rw l refl)
        (extended-DbIsValid now (2 * local.timeout_seconds + 30) c.token row
          (model_send_authorized row.id) db s found v)
  | inr l ↦ frame-DbIsValid db _ (rw l refl) (rw l refl) v
]

-- `_begin` keeps the queue's invariant.
begin-DbIsValid :
    (env : Env) (config : OpenAiConfig) (local : LocalConfig) (now : ℕ) (c : Claim) (db : Db)
    → (b : Begun) (db' : Db) → DbIsValid db
    → begin env config local now c db ≡ ok (b, db')
    → DbIsValid db'
begin-DbIsValid env config local now c db b db' v h =
    from (begin-cases env config local now c db b db' h)
  where
    from : Begins env config local now c db b db' → DbIsValid db'
    from (stored r e q) = rw q v
    from (lost row m e p l q r) = frame-DbIsValid db db' (ground (arith, r)) (ground (arith, r)) v
    from (sends row m p s) = rw s.result (
        sending-DbIsValid env config local now c row m.request.payload db
          (owns-running now c row s.owner) (job_of_self c.id db row s.job_row) v)

pub finish-frame :
    (id : ℕ) (p : Payload) (r : WorkerResult) (db : Db) (r' : WorkerResult) (db' : Db)
    → finish id p r db ≡ ok (r', db')
    → (db'.jobs ≡ db.jobs) × (db'.checkpoints ≡ db.checkpoints)
unfolding finish
finish-frame id p r db r' db' h = ground arith

finish-DbIsValid :
    (id : ℕ) (p : Payload) (r : WorkerResult) (db : Db) (r' : WorkerResult) (db' : Db)
    → DbIsValid db
    → finish id p r db ≡ ok (r', db')
    → DbIsValid db'
finish-DbIsValid id p r db r' db' v h =
    let f = finish-frame id p r db r' db' h in frame-DbIsValid db db' f.0 f.1 v

Step-DbIsValid :
    {config : OpenAiConfig} {w u : World} → Step config w u → DbIsValid w.db → DbIsValid u.db
Step-DbIsValid (enqueues env local now i t q k d r db' e) v =
    enqueue-DbIsValid env local now i t q k d _ r db' v e
Step-DbIsValid (binds env local now i q t run p x n r db' e) v =
    enqueue_agent_run-DbIsValid env local now i q t run p x n _ r db' v e
Step-DbIsValid (controls now id a r db' e) v = control-DbIsValid now id a _ r db' v e
Step-DbIsValid (claims now token ready) v = claim-DbIsValid now token ready _ v
Step-DbIsValid (checkpoints env now c r b db' e) v = checkpoint-DbIsValid env now c r _ b db' v e
Step-DbIsValid {config} (begins env local now c b db' e) v =
    begin-DbIsValid env config local now c _ b db' v e
Step-DbIsValid (finishes_local env id o m r db' x l e) v = finish-DbIsValid id _ _ _ r db' v e
Step-DbIsValid (finishes env id o m r db' x f e) v = finish-DbIsValid id _ _ _ r db' v e
Step-DbIsValid (crashes id) v = v
Step-DbIsValid {w = w} (reconciles env h id digest a receipts r b' e) v =
    let f = reconcile-frame env h id digest a (record { db = w.db; receipts = receipts }) b' r e in
    frame-DbIsValid w.db b'.db f.0 f.1 v
Step-DbIsValid {w = w} (records env h id p o receipts b' e) v =
    let f = record_usage-frame env h id p o (record { db = w.db; receipts = receipts }) b' e in
    frame-DbIsValid w.db b'.db f.0 f.1 v
Step-DbIsValid {w = w} (elsewhere db' j c m a) v = frame-DbIsValid w.db db' j c v

pub Reach-DbIsValid :
    (config : OpenAiConfig) (w u : World) → DbIsValid w.db → Reach config w u → DbIsValid u.db
Reach-DbIsValid config w u v here = v
Reach-DbIsValid config w u v (next r s) = Step-DbIsValid s (Reach-DbIsValid config w _ v r)
