-- ===== src/System.antt =====
-- The durable queue and the model executor as one system: workers, the clock and the rest of the
-- program choose the operation, its arguments and the time. leon_control_plane/work_queue.py,
-- src/leon_control_plane/work_runner.py, leon_control_plane/model_work.py and model_receipts.py.
-- `in_flight` lists the jobs whose paid request a worker has been told to send and has not recorded.
pub mod Flight
pub mod Boarding
pub mod Moves
pub mod Arrivals
pub mod Jobs
pub mod Closed
pub mod Ledger
pub mod Launch
pub mod Flights
pub mod Sends
pub mod Receipts
pub mod Fences
mod Examples
use leon_ai_assistant.Base.{
  ℕ, String, Bool, true, false, List, [], ◌∷◌, Option, none, some, ◌≡◌, ◌≢◌, ◌==◌, if◌then◌else◌,
  any,
}
use leon_ai_assistant.Db.{Db, Kind, Result, ok, ModelRow, WorkerResult, Payload, model_of, is_local}
use leon_ai_assistant.Model.{Env, OpenAiConfig, LocalConfig, Details}
use leon_ai_assistant.Model.Ledger.{Begun, send, cached, begin, finish, outcome, Reply}
use leon_ai_assistant.Model.Receipts.{Receipt, ReceiptRow, Observed, Books, record_usage, reconcile}
use leon_ai_assistant.Work.{View}
use leon_ai_assistant.Work.Enqueue.{enqueue, enqueue_agent_run}
use leon_ai_assistant.Work.Control.{Action, control}
use leon_ai_assistant.Work.Claim.{Claim, claim}
use leon_ai_assistant.Work.Checkpoints.{checkpoint}

pub record World : Type 0 where
  pub db : Db
  pub in_flight : List ℕ

-- The first occurrence is dropped.
unfoldable pub remove : ℕ → List ℕ → List ℕ
remove id [] = []
remove id (x ∷ xs) = if x == id then xs else x ∷ remove id xs

-- What the worker of `c` does with the answer of `_begin`.
unfoldable pub launched : Claim → Begun → List ℕ → List ℕ
launched c (send p) ids = if is_local p then ids else c.id ∷ ids
launched c (cached r) ids = ids

abbrev pub flies : ℕ → List ℕ → Bool
flies id ids = any (λ x. x == id) ids

module _ (config : OpenAiConfig) where
  pub data Step (w : World) : World → Type 0 where
    enqueues :
        (env : Env) (local : LocalConfig) (now new_id task_id : ℕ) (request_id : Option ℕ)
        → (kind : Option Kind) (d : Option Details) (r : View) (db' : Db)
        → enqueue env local now new_id task_id request_id kind d w.db ≡ ok (r, db')
        → Step w (record { db = db'; in_flight = w.in_flight })
    binds :
        (env : Env) (local : LocalConfig) (now new_id request_id task_id run_id proposal_id : ℕ)
        → (prompt : String) (limit : ℕ) (r : View) (db' : Db)
        → enqueue_agent_run env local now new_id request_id task_id run_id proposal_id prompt limit
            w.db
          ≡ ok (r, db')
        → Step w (record { db = db'; in_flight = w.in_flight })
    controls :
        (now id : ℕ) (a : Option Action) (r : View) (db' : Db)
        → control now id a w.db ≡ ok (r, db')
        → Step w (record { db = db'; in_flight = w.in_flight })
    claims :
        (now token : ℕ) (ready : Bool)
        → Step w (record { db = (claim now token ready w.db).1; in_flight = w.in_flight })
    checkpoints :
        (env : Env) (now : ℕ) (c : Claim) (r : WorkerResult) (b : Bool) (db' : Db)
        → checkpoint env now c r w.db ≡ ok (b, db')
        → Step w (record { db = db'; in_flight = w.in_flight })
    begins :
        (env : Env) (local : LocalConfig) (now : ℕ) (c : Claim) (b : Begun) (db' : Db)
        → begin env config local now c w.db ≡ ok (b, db')
        → Step w (record { db = db'; in_flight = launched c b w.in_flight })
    finishes_local :
        (env : Env) (id : ℕ) (o : Option Reply) (m : ModelRow) (r : WorkerResult) (db' : Db)
        → model_of id w.db ≡ some m
        → is_local m.request.payload ≡ true
        → finish id m.request.payload (outcome env m.request.payload o) w.db ≡ ok (r, db')
        → Step w (record { db = db'; in_flight = w.in_flight })
    finishes :
        (env : Env) (id : ℕ) (o : Option Reply) (m : ModelRow) (r : WorkerResult) (db' : Db)
        → model_of id w.db ≡ some m
        → flies id w.in_flight ≡ true
        → finish id m.request.payload (outcome env m.request.payload o) w.db ≡ ok (r, db')
        → Step w (record { db = db'; in_flight = remove id w.in_flight })
    crashes : (id : ℕ) → Step w (record { db = w.db; in_flight = remove id w.in_flight })
    -- A user reconciles a receipt; the receipts are any that the table holds at that time.
    reconciles :
        (env : Env) (digest_of : Receipt → ℕ) (id digest : ℕ) (approved : Bool)
        (receipts : List ReceiptRow) (r : View) (b' : Books)
        → reconcile env digest_of id digest approved (record { db = w.db; receipts = receipts })
          ≡ ok (r, b')
        → Step w (record { db = b'.db; in_flight = w.in_flight })
    records :
        (env : Env) (digest_of : Receipt → ℕ) (id : ℕ) (p : Payload) (o : Observed)
        (receipts : List ReceiptRow) (b' : Books)
        → record_usage env digest_of id p o (record { db = w.db; receipts = receipts }) ≡ ok b'
        → Step w (record { db = b'.db; in_flight = w.in_flight })
    -- The rest of the program changes tasks, runs, proposals, bindings and chat messages,
    -- and logs events other than those of the queue and the executor.
    elsewhere :
        (db' : Db)
        → db'.jobs ≡ w.db.jobs
        → db'.checkpoints ≡ w.db.checkpoints
        → db'.models ≡ w.db.models
        → db'.audit ≡ w.db.audit
        → Step w (record { db = db'; in_flight = w.in_flight })

  pub data Reach (w : World) : World → Type 0 where
    here : Reach w w
    next : {u v : World} → Reach w u → Step u v → Reach w v

  -- The token that a step hands out.
  unfoldable pub granted : {w u : World} → Step w u → Option ℕ
  granted (claims now token ready) = some token
  granted _ = none

  -- No claim on the way hands out this token.
  unfoldable pub Avoids : (token : ℕ) {w u : World} → Reach w u → Type 0
  Avoids token here = Unit {0}
  Avoids token (next r s) = Avoids token r × (granted s ≢ some token)
