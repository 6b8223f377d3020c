-- ===== src/Db.antt =====
-- The rows of the control-plane database that the durable work queue reads and writes: work_jobs and
-- work_checkpoints (src/leon_control_plane/work_queue.py), model_work (src/leon_control_plane/model_work.py),
-- and the columns of tasks, agent_runs, agent_assignment_proposals and agent_run_work that they test.
-- An id is a number: ids are compared for equality, and in ORDER BY. Times are whole seconds.
use leon_ai_assistant.Base.{
  ℕ, Bool, true, false, ◌&&◌, not, String, List, ◌∷◌, Option, none, some, ◌==◌, ◌≡◌, refl, ◌⊎◌, inl,
  inr,
}
use leon_ai_assistant.Base.Rows.{find, update}

pub data TaskStatus : Type 0 where
  new planned active waiting_for_approval waiting_for_secret : TaskStatus
  waiting_for_user blocked review done rejected : TaskStatus

pub record Task : Type 0 where
  pub id : ℕ
  pub status : TaskStatus
  pub approval_required : Bool
  pub risk_level : String

pub data Kind : Type 0 where
  python_syntax_check openai_text : Kind

pub data Status : Type 0 where
  queued running paused succeeded failed cancelled : Status

pub data JobError : Type 0 where
  no_error parent_task_ineligible recovery_limit local_model_retry check_failed : JobError

pub record Job : Type 0 where
  pub id : ℕ
  pub request_id : ℕ
  pub task_id : ℕ
  pub kind : Kind
  pub status : Status
  pub next_step : ℕ
  pub attempts : ℕ
  pub lease_token : Option ℕ
  pub lease_until : Option ℕ
  pub error : JobError
  pub created_at : ℕ
  pub updated_at : ℕ

-- What a worker hands to `checkpoint`: the fields that are read, and the encoded JSON text.
pub record WorkerResult : Type 0 where
  pub ok : Option Bool
  pub provider_calls_made : Option Bool
  pub retry_allowed : Bool
  pub accounted : ℕ
  pub json : String

pub record Checkpoint : Type 0 where
  pub job_id : ℕ
  pub step : ℕ
  pub result : WorkerResult
  pub recorded_at : ℕ

pub data Provider : Type 0 where
  openai ollama : Provider

pub record Payload : Type 0 where
  pub provider : Provider
  pub model : String
  pub input : String
  pub max_output_tokens : ℕ
  pub num_ctx : ℕ

pub record Approved : Type 0 where
  pub payload : Payload
  pub max_cost_microusd : ℕ

pub data ModelState : Type 0 where
  approved sending unknown settled reconciled : ModelState

pub record ModelRow : Type 0 where
  pub job_id : ℕ
  pub request : Approved
  pub digest : ℕ
  pub state : ModelState
  pub held : ℕ
  pub charged : ℕ
  pub sent_at : Option ℕ
  pub result : Option WorkerResult

pub record AgentRun : Type 0 where
  pub id : ℕ
  pub task_id : ℕ
  pub is_running : Bool
  pub risk : String

pub record Proposal : Type 0 where
  pub id : ℕ
  pub task_id : ℕ
  pub is_applied : Bool
  pub is_local : Bool
  pub applied_run : Option ℕ

pub record Binding : Type 0 where
  pub job_id : ℕ
  pub run_id : ℕ
  pub proposal_id : ℕ
  pub is_synced : Bool

pub data Event : Type 0 where
  work : Status → ℕ → Event
  claimed checkpoint_recorded retry_queued : ℕ → Event
  model_unknown model_send_authorized model_result_recorded : ℕ → Event
  model_usage_observed model_cost_reconciled : ℕ → Event

-- The audit log holds the newest event first.
pub record Db : Type 0 where
  pub tasks : List Task
  pub jobs : List Job
  pub checkpoints : List Checkpoint
  pub models : List ModelRow
  pub runs : List AgentRun
  pub proposals : List Proposal
  pub bindings : List Binding
  pub chat_jobs : List ℕ
  pub audit : List Event

-- The errors that the queue raises, one for each message.
pub data Fault : Type 0 where
  unknown_job bad_action bad_state task_ineligible unsupported_work bad_uuid : Fault
  bound_to_other_work bound_to_other_text task_not_eligible needs_low_risk queue_full : Fault
  invalid_result secret_found lease_lost missing_request digest_mismatch contract_mismatch : Fault
  reservation_exceeded reconciliation_required budget_exhausted provider_disabled : Fault
  bad_text bad_output_limit bad_cost_cap approval_missing cap_below_reservation : Fault
  bad_provider other_run run_ineligible high_risk_run not_authorized not_local integrity : Fault
  usage_mismatch conflicting_usage invalid_usage nothing_to_reconcile receipt_damaged : Fault
  other_receipt usage_differs usage_exceeds review_required receipt_changed : Fault

pub data Result {ℓ} (A : Type ℓ) : Type ℓ where
  ok : A → Result A
  err : Fault → Result A

pub Result-cases {ℓ} :
    {A : Type ℓ} (r : Result A) → ((a : A) × (r ≡ ok a)) ⊎ ((e : Fault) × (r ≡ err e))
Result-cases (ok a) = inl (a, refl)
Result-cases (err e) = inr (e, refl)

-- `if not b: raise e`
abbrev pub require : Bool → Fault → Result (Unit {0})
require b e = elim b [ false ↦ err e | true ↦ ok tt ]

-- An exception leaves the transaction at once.
infixl 5 ◌>>◌ ◌>>=◌
abbrev pub ◌>>=◌ {ℓ κ} : {X : Type ℓ} {Y : Type κ} → Result X → (X → Result Y) → Result Y
err fault >>= rest = err fault
ok value >>= rest = rest value

abbrev pub ◌>>◌ {κ} : {Y : Type κ} → Result (Unit {0}) → Result Y → Result Y
checked >> rest = checked >>= λ _. rest

abbrev pub or_fault {ℓ} : {A : Type ℓ} → Option A → Fault → Result A
or_fault none e = err e
or_fault (some a) e = ok a

abbrev pub job_of : ℕ → Db → Option Job
job_of id db = find (λ (j : Job). j.id == id) db.jobs

abbrev pub set_job : ℕ → (Job → Job) → Db → Db
set_job id f db = record db { jobs = update (λ (j : Job). j.id == id) f db.jobs }

abbrev pub model_of : ℕ → Db → Option ModelRow
model_of id db = find (λ (m : ModelRow). m.job_id == id) db.models

abbrev pub set_model : ℕ → (ModelRow → ModelRow) → Db → Db
set_model id f db = record db { models = update (λ (m : ModelRow). m.job_id == id) f db.models }

abbrev pub log : Event → Db → Db
log e db = record db { audit = e ∷ db.audit }

-- `status in {"new", "planned", "active"}`
abbrev pub is_open_task : TaskStatus → Bool
is_open_task new = true
is_open_task planned = true
is_open_task active = true
is_open_task _ = false

abbrev eligible : Option Task → Bool
eligible none = false
eligible (some t) = is_open_task t.status && not t.approval_required

-- `WorkQueue._task_eligible`
unfoldable pub task_eligible : ℕ → Db → Bool
task_eligible id db = eligible (find (λ (t : Task). t.id == id) db.tasks)

abbrev pub is_local : Payload → Bool
is_local p = elim p.provider [ ollama ↦ true | openai ↦ false ]

-- What a chain that answers has passed.
pub require-passed {κ} :
    {Y : Type κ} (b : Bool) (e : Fault) (rest : Result Y) (y : Y)
    → (require b e >> rest) ≡ ok y
    → (b ≡ true) × (rest ≡ ok y)
require-passed false e rest y h = absurd (cc h)
require-passed true e rest y h = (refl, h)

pub or_fault-found {ℓ κ} :
    {X : Type ℓ} {Y : Type κ} (o : Option X) (e : Fault) (rest : X → Result Y) (y : Y)
    → (or_fault o e >>= rest) ≡ ok y
    → (x : X) × (o ≡ some x) × (rest x ≡ ok y)
or_fault-found none e rest y h = absurd (cc h)
or_fault-found (some x) e rest y h = (x, refl, h)

pub >>=-ok {ℓ κ} :
    {X : Type ℓ} {Y : Type κ} (m : Result X) (rest : X → Result Y) (y : Y)
    → (m >>= rest) ≡ ok y
    → (x : X) × (m ≡ ok x) × (rest x ≡ ok y)
>>=-ok (err e) rest y h = absurd (cc h)
>>=-ok (ok x) rest y h = (x, refl, h)

pub ok-injective {ℓ} : {A : Type ℓ} (a b : A) → ok a ≡ ok b → a ≡ b
ok-injective a b h = cc h

pub ok-pair {ℓ κ} :
    {A : Type ℓ} {B : Type κ} (a b : A) (x y : B)
    → ◌≡◌ {A = Result (A × B)} (ok (a, x)) (ok (b, y))
    → x ≡ y
ok-pair a b x y h = cc h
