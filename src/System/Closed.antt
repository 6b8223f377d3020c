-- ===== src/System/Closed.antt =====
-- src/leon_control_plane/work_queue.py: the life of a job, and its end.
use leon_ai_assistant.Base.{
  ℕ, ◌≡◌, refl, subst, inl, inr, true, false, ◌∷◌, Option, some, arith, Bool-cases, ◌==◌, ◌||◌, ◌∙◌,
}
use leon_ai_assistant.Base.Rows.{find, find-All}
use leon_ai_assistant.Base.Keys.{by_key-update_self, by_key-update_ne}
use leon_ai_assistant.Db.{Db, Job, job_of}
use leon_ai_assistant.Model.{OpenAiConfig}
use leon_ai_assistant.Work.{is_open}
use leon_ai_assistant.Work.Invariant.{DbIsValid}
use leon_ai_assistant.Work.Advance.{job_of-id}
use leon_ai_assistant.Work.Fresh.{Free}
use leon_ai_assistant.System.{
  World, Step, Reach, here, next, enqueues, binds, controls, claims, checkpoints, begins,
  finishes_local, finishes, crashes, reconciles, records, elsewhere, granted,
}
use leon_ai_assistant.System.Moves.{
  Moves, same, one, added, Grows, control-Moves, claim-Moves, checkpoint-Moves, begin-Moves,
}
use leon_ai_assistant.System.Arrivals.{enqueue-Moves, enqueue_agent_run-Moves}
use leon_ai_assistant.System.Receipts.{reconcile-frame, record_usage-frame}
use leon_ai_assistant.System.Jobs.{finish-frame, Reach-DbIsValid}

Grows-refl : (j : Job) → Grows j j
Grows-refl j = ground arith

Grows-trans : (a b c : Job) → Grows a b → Grows b c → Grows a c
Grows-trans a b c g h = ground arith

-- What became of a job: its row afterwards.
record Kept (id : ℕ) (row : Job) (db' : Db) (row' : Job) : Type 0 where
  found : job_of id db' ≡ some row'
  grows : Grows row row'
  closed : is_open row.status ≡ false → row' ≡ row

-- A new job does not hide an old one.
pub added-found :
    (id : ℕ) (row j : Job) (db : Db)
    → job_of id db ≡ some row
    → Free j db
    → find (λ (x : Job). x.id == id) (j ∷ db.jobs) ≡ some row
unfolding find
added-found id row j db e free =
    let f =
      find-All (λ (x : Job). x.id == id)
        (λ (k : Job). (k.id == j.id || k.request_id == j.request_id) ≡ false) db.jobs row free e in
    ground (arith, e, f, job_of-id id db row e)

Moves-Kept :
    {g : Option ℕ} (id : ℕ) (row : Job) (db db' : Db)
    → job_of id db ≡ some row
    → Moves g db db'
    → (row' : Job) × Kept id row db' row'
Moves-Kept id row db db' e (same q) =
    (row, record { found = rw q e; grows = Grows-refl row; closed = λ c. refl })
Moves-Kept id row db db' e (added j free q) = (
  row,
  record {
    found = rw q (added-found id row j db e free);
    grows = Grows-refl row;
    closed = λ c. refl;
  },
)
Moves-Kept id row db db' e (one k old f found o keys g t q) = elim (Bool-cases (k == id)) [
  | inr n ↦ (
    row,
    record {
      found =
          rw q (by_key-update_ne (λ (j : Job). j.id) k id f db.jobs keys (ground (arith, n)) ∙ e);
      grows = Grows-refl row;
      closed = λ c. refl;
    },
  )
  | inl n ↦
      let kk : k ≡ id = ground (arith, n) in
      let rr : old ≡ row = ground (arith, subst (λ i. job_of i db ≡ some old) kk found) in
      (
        f row,
        record {
          found = rw (q, kk) (by_key-update_self (λ (j : Job). j.id) id f row db.jobs keys e);
          grows = subst (λ x. Grows x (f x)) rr g;
          closed = λ c. absurd (cc (subst (λ (x : Job). is_open x.status ≡ true) rr o));
        },
      )
]

pub Step-Moves :
    {config : OpenAiConfig} {w u : World} (s : Step config w u)
    → DbIsValid w.db
    → Moves (granted config s) w.db u.db
unfolding granted
Step-Moves (enqueues env local now i t q k d r db' e) v =
    enqueue-Moves env local now i t q k d _ r db' e
Step-Moves (binds env local now i q t run p x n r db' e) v =
    enqueue_agent_run-Moves env local now i q t run p x n _ r db' e
Step-Moves (controls now id a r db' e) v = control-Moves now id a _ r db' e
Step-Moves (claims now token ready) v = claim-Moves now token ready _ v
Step-Moves (checkpoints env now c r b db' e) v = checkpoint-Moves env now c r _ b db' v e
Step-Moves {config} (begins env local now c b db' e) v =
    begin-Moves env config local now c _ b db' e
Step-Moves (finishes_local env id o m r db' x l e) v = same (finish-frame id _ _ _ r db' e).0
Step-Moves (finishes env id o m r db' x f e) v = same (finish-frame id _ _ _ r db' e).0
Step-Moves (crashes id) v = same refl
Step-Moves {w = w} (reconciles env h id digest a receipts r b' e) v =
    same (reconcile-frame env h id digest a (record { db = w.db; receipts = receipts }) b' r e).0
Step-Moves {w = w} (records env h id p o receipts b' e) v =
    same (record_usage-frame env h id p o (record { db = w.db; receipts = receipts }) b' e).0
Step-Moves (elsewhere db' j c m a) v = same j

Reach-Kept :
    (config : OpenAiConfig) (id : ℕ) (row : Job) (w u : World)
    → DbIsValid w.db
    → job_of id w.db ≡ some row
    → Reach config w u
    → (row' : Job) × Kept id row u.db row'
Reach-Kept config id row w u v e here =
    (row, record { found = e; grows = Grows-refl row; closed = λ c. refl })
Reach-Kept config id row w u v e (next {u = m} r s) =
    let (a, k) = Reach-Kept config id row w m v e r in
    let (b, l) =
      Moves-Kept id a m.db u.db k.found (Step-Moves s (Reach-DbIsValid config w m v r)) in
    (
      b,
      record {
        found = l.found;
        grows = Grows-trans row a b k.grows l.grows;
        closed = λ c. l.closed (rw (k.closed c) c) ∙ k.closed c;
      },
    )

-- From a valid state, whatever the system does, a job stays in the table under its id with its
-- request id, task, kind and creation time, and its next step never decreases.
Reach-Grows :
    (config : OpenAiConfig) (id : ℕ) (row : Job) (w u : World)
    → DbIsValid w.db
    → job_of id w.db ≡ some row
    → Reach config w u
    → (row' : Job) × (job_of id u.db ≡ some row') × Grows row row'
Reach-Grows config id row w u v e r =
    let (row', k) = Reach-Kept config id row w u v e r in (row', k.found, k.grows)

-- From a valid state, a job that succeeded, failed or was cancelled keeps its whole row for ever.
pub Reach-closed :
    (config : OpenAiConfig) (id : ℕ) (row : Job) (w u : World)
    → DbIsValid w.db
    → job_of id w.db ≡ some row
    → is_open row.status ≡ false
    → Reach config w u
    → job_of id u.db ≡ some row
Reach-closed config id row w u v e c r =
    let (row', k) = Reach-Kept config id row w u v e r in rw (k.closed c) at k.found
