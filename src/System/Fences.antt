-- ===== src/System/Fences.antt =====
-- src/leon_control_plane/work_queue.py: a lease token stays a fence, whatever the system does meanwhile.
use leon_ai_assistant.Base.{
  ℕ, ◌≡◌, ◌≢◌, refl, subst, ap, ◌∙◌, inl, inr, Bool, true, false, List, Option, none, some, arith,
  Bool-cases, is_some, ◌==◌,
}
use leon_ai_assistant.Base.Rows.{find-All}
use leon_ai_assistant.Base.Keys.{by_key-update_self, by_key-update_ne}
use leon_ai_assistant.Db.{Db, Job, WorkerResult, ok, job_of}
use leon_ai_assistant.Model.{Env, OpenAiConfig}
use leon_ai_assistant.Work.{View, is_running}
use leon_ai_assistant.Work.Claim.{Claim}
use leon_ai_assistant.Work.Control.{Action, control}
use leon_ai_assistant.Work.Checkpoints.{checkpoint, owns, is_token}
use leon_ai_assistant.Work.Invariant.{DbIsValid, JobIsValid}
use leon_ai_assistant.Work.Preserve.{control-DbIsValid}
use leon_ai_assistant.Work.Commit.{checkpoint-DbIsValid}
use leon_ai_assistant.Work.Fence.{not_owned, control-idle}
use leon_ai_assistant.Work.Handover.{checkpoint-idle}
use leon_ai_assistant.System.{World, Reach, here, next, granted, Avoids}
use leon_ai_assistant.System.Moves.{Moves, same, one, added, Leases}
use leon_ai_assistant.System.Closed.{Step-Moves, added-found}
use leon_ai_assistant.System.Jobs.{Reach-DbIsValid}

-- The job is there, and its lease is not under the token.
abbrev Unheld : ℕ → ℕ → Db → Type 0
Unheld id token db =
    (row : Job) × (job_of id db ≡ some row) × (is_token row.lease_token token ≡ false)

Leases-unheld :
    (g : Option ℕ) (token : ℕ) (a b : Job)
    → g ≢ some token
    → Leases g a b
    → is_token a.lease_token token ≡ false
    → is_token b.lease_token token ≡ false
Leases-unheld g token a b n (inl q) h = rw q h
Leases-unheld g token a b n (inr (inl q)) h = rw q refl
Leases-unheld none token a b n (inr (inr q)) h = rw q refl
Leases-unheld (some t) token a b n (inr (inr q)) h = elim (Bool-cases (t == token)) [
  | inl e ↦ let k : t ≡ token = ground (arith, e) in absurd (n (ap (λ x. some x) k))
  | inr e ↦ rw q e
]

Moves-Unheld :
    (g : Option ℕ) (id token : ℕ) (db db' : Db)
    → g ≢ some token
    → Moves g db db'
    → Unheld id token db
    → Unheld id token db'
Moves-Unheld g id token db db' n (same q) (row, e, h) = (row, rw q e, h)
Moves-Unheld g id token db db' n (added j free q) (row, e, h) =
    (row, rw q (added-found id row j db e free), h)
Moves-Unheld g id token db db' n (one k old f found o keys grows lease q) (row, e, h) =
    elim (Bool-cases (k == id)) [
      | inr d ↦ (
        row,
        rw q (by_key-update_ne (λ (j : Job). j.id) k id f db.jobs keys (ground (arith, d)) ∙ e),
        h,
      )
      | inl d ↦
          let kk : k ≡ id = ground (arith, d) in
          let rr : old ≡ row = ground (arith, subst (λ i. job_of i db ≡ some old) kk found) in
          (
            f row,
            rw (q, kk) (by_key-update_self (λ (j : Job). j.id) id f row db.jobs keys e),
            Leases-unheld g token row (f row) n (subst (λ x. Leases g x (f x)) rr lease) h,
          )
    ]

Reach-Unheld :
    (config : OpenAiConfig) (id token : ℕ) (w u : World) (path : Reach config w u)
    → Avoids config token path
    → DbIsValid w.db
    → Unheld id token w.db
    → Unheld id token u.db
unfolding Avoids
Reach-Unheld config id token w u here a v h = h
Reach-Unheld config id token w u (next {u = m} r s) a v h =
    Moves-Unheld (granted config s) id token m.db u.db a.1
      (Step-Moves s (Reach-DbIsValid config w m v r)) (Reach-Unheld config id token w m r a.0 v h)

unheld-not_owned :
    (now : ℕ) (c : Claim) (row : Job)
    → is_token row.lease_token c.token ≡ false
    → owns now c row ≡ false
unfolding owns
unheld-not_owned now c row h = ground (arith, h)

-- In a valid database, a job that is not running is leased to nobody.
idle-Unheld :
    (id token : ℕ) (db : Db) (row : Job)
    → DbIsValid db
    → job_of id db ≡ some row
    → is_running row.status ≡ false
    → Unheld id token db
idle-Unheld id token db row v e s =
    let w = find-All (λ (j : Job). j.id == id) (JobIsValid db.checkpoints) db.jobs row v.valid e in
    (row, e, no_token row.lease_token (w.leased ∙ s))
  where
    no_token : (o : Option ℕ) → is_some o ≡ false → is_token o token ≡ false
    no_token none h = refl
    no_token (some t) h = absurd (cc h)

module _ (config : OpenAiConfig) (db' : Db) (ids : List ℕ) (u : World) (db'' : Db) (c old : Claim)
    (env : Env) (later : ℕ) (r : WorkerResult) (b : Bool)
    (path : Reach config (record { db = db'; in_flight = ids }) u) where
  idle_fence :
      (row : Job)
      → DbIsValid db'
      → job_of c.id db' ≡ some row
      → is_running row.status ≡ false
      → old.id ≡ c.id
      → Avoids config old.token path
      → checkpoint env later old r u.db ≡ ok (b, db'')
      → (b ≡ false) × (db'' ≡ u.db)
  idle_fence row v e s job a k =
      let (row', f, h) =
        Reach-Unheld config c.id old.token (record { db = db'; in_flight = ids }) u path a v
          (idle-Unheld c.id old.token db' row v e s) in
      not_owned env later old r u.db row' b db'' (rw job f) (unheld-not_owned later old row' h) k

  -- From a valid database: after `checkpoint` returned True, whatever the system does next, no worker whose
  -- token was not handed out by a claim since then commits to the job: its `checkpoint` returns False and
  -- leaves the database as it is.
  pub no_second_commit :
      (db : Db) (now : ℕ) (first : WorkerResult)
      → DbIsValid db
      → checkpoint env now c first db ≡ ok (true, db')
      → old.id ≡ c.id
      → Avoids config old.token path
      → checkpoint env later old r u.db ≡ ok (b, db'')
      → (b ≡ false) × (db'' ≡ u.db)
  no_second_commit db now first v h job a k =
      let (row, e, s) = checkpoint-idle env now c first db db' v h in
      idle_fence row (checkpoint-DbIsValid env now c first db true db' v h) e s job a k

  -- From a valid database: once a job was paused, resumed or cancelled, whatever the system does next, a new
  -- claim of the job included, no worker whose token was not handed out since then commits to the job: its
  -- `checkpoint` returns False and leaves the database as it is.
  pub control_fences :
      (db : Db) (now : ℕ) (action : Action) (answer : View)
      → DbIsValid db
      → control now c.id (some action) db ≡ ok (answer, db')
      → old.id ≡ c.id
      → Avoids config old.token path
      → checkpoint env later old r u.db ≡ ok (b, db'')
      → (b ≡ false) × (db'' ≡ u.db)
  control_fences db now action answer v h job a k =
      let (row, e, s) = control-idle now action answer c.id db db' h in
      idle_fence row (control-DbIsValid now c.id (some action) db answer db' v h) e s job a k
