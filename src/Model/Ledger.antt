-- ===== src/Model/Ledger.antt =====
-- src/leon_control_plane/model_work.py: `ModelExecutor`, which sends an approved request and keeps the
-- ledger of held and charged money. The transport is outside: what it observed is an argument.
use Prim.Native.String.{len}
use leon_ai_assistant.Base.{
  ℕ, ◌+◌, ◌*◌, ◌/◌, Bool, true, false, ◌&&◌, ◌||◌, not, String, Option, none, some, ◌==◌, leb,
  if◌then◌else◌, is_some, str_eq,
}
use leon_ai_assistant.Base.Rows.{find, total}
use leon_ai_assistant.Db.{
  Db, Job, ModelRow, ModelState, approved, sending, unknown, settled, reconciled, WorkerResult,
  Payload, Result, ok, require, or_fault, ◌>>=◌, ◌>>◌, lease_lost, missing_request, unknown_job,
  digest_mismatch, needs_low_risk, contract_mismatch, reservation_exceeded, reconciliation_required,
  budget_exhausted, job_of, set_job, model_of, set_model, log, model_unknown, model_send_authorized,
  model_result_recorded, is_local,
}
use leon_ai_assistant.Model.{
  Env, OpenAiConfig, LocalConfig, validate, validate_local, request_payload, local_request_payload,
  reservation, cost_microusd, same_payload, openai_model,
}
use leon_ai_assistant.Work.{model_eligible}
use leon_ai_assistant.Work.Claim.{Claim}
use leon_ai_assistant.Work.Checkpoints.{owns, is_true, is_token}

-- `_unknown()`
abbrev pub unknown_result : WorkerResult
unknown_result = record {
  ok = some false;
  provider_calls_made = none;
  retry_allowed = false;
  accounted = 0;
  json = "provider_outcome_unknown";
}

abbrev pub local_unavailable : WorkerResult
local_unavailable = record {
  ok = some false;
  provider_calls_made = some false;
  retry_allowed = true;
  accounted = 0;
  json = "local_model_unavailable";
}

-- `state in {"sending", "unknown"}`
abbrev pub is_pending : ModelState → Bool
is_pending sending = true
is_pending unknown = true
is_pending _ = false

abbrev pub is_unknown : ModelState → Bool
is_unknown unknown = true
is_unknown _ = false

-- SUM(held_microusd + charged_microusd)
abbrev pub spent : ModelRow → ℕ
spent m = m.held + m.charged

abbrev pub since : ℕ → Option ℕ → Bool
since start none = false
since start (some t) = leb start t

-- SUM(held_microusd + CASE WHEN sent_at >= day_start THEN charged_microusd ELSE 0 END)
abbrev pub spent_since : ℕ → ModelRow → ℕ
spent_since start m = m.held + (if since start m.sent_at then m.charged else 0)

abbrev pub day_start : ℕ → ℕ
day_start now = now / 86400 * 86400

-- What `_begin` returns: a payload to send, or a result that is already known.
pub data Begun : Type 0 where
  send : Payload → Begun
  cached : WorkerResult → Begun

unfoldable pub to_send : ℕ → ℕ → ModelRow → ModelRow
to_send now hold m = record m { state = sending; held = hold; sent_at = some now }

-- UPDATE work_jobs SET lease_until = ? WHERE id = ? AND lease_token = ?
unfoldable pub extended : ℕ → ℕ → ℕ → Job → Job
extended now window token j =
    if is_token j.lease_token token
    then record j { lease_until = some (now + window); updated_at = now }
    else j

abbrev pub hold_for : Payload → ℕ
hold_for p = if is_local p then 0 else reservation p

unfoldable pub affordable : OpenAiConfig → ℕ → ℕ → Db → Bool
affordable config now hold db =
    leb (total spent db.models + hold) config.total_microusd
    && leb (total (spent_since (day_start now)) db.models + hold) config.daily_microusd

module _ (env : Env) (config : OpenAiConfig) (local : LocalConfig) where
  -- The database once the request is marked as sending.
  abbrev pub sending_db : ℕ → Claim → Job → Payload → Db → Db
  sending_db now c row p db = log (model_send_authorized row.id) (
      set_model row.id (to_send now (hold_for p)) (
        if is_local p
        then set_job row.id (extended now (2 * local.timeout_seconds + 30) c.token) db
        else db))

  -- The request as the current configuration would make it.
  unfoldable pub expected : Payload → Result Payload
  expected p =
      if is_local p
      then local_request_payload env p.input p.max_output_tokens local
      else request_payload env p.input p.max_output_tokens

  unfoldable pub validated : Payload → Result (Unit {0})
  validated p = if is_local p then validate_local local else validate env config

  unfoldable pub authorize : ℕ → Claim → Job → ModelRow → Db → Result (Begun × Db)
  unfolding to_send extended
  authorize now c row m db = do
    let p = m.request.payload
    validated p
    require (model_eligible row.task_id (some row.id) db) needs_low_risk
    q ← expected p
    require (same_payload p q) contract_mismatch
    require (leb (hold_for p) m.request.max_cost_microusd) reservation_exceeded
    require (is_local p || not (is_some (find (λ (n : ModelRow). is_unknown n.state) db.models)))
        reconciliation_required
    require (is_local p || affordable config now (hold_for p) db) budget_exhausted
    ok (send p, sending_db now c row p db)

  -- The part for a request with no stored result.
  unfoldable pub unanswered : ℕ → Claim → Job → ModelRow → Db → Result (Begun × Db)
  unanswered now c row m db = do
    require (env.digest m.request == m.digest) digest_mismatch
    if is_pending m.state && not (is_local m.request.payload)
        then ok (
          cached unknown_result,
          log (model_unknown row.id) (set_model row.id (λ n. record n { state = unknown }) db),
        )
        else authorize now c row m db

  -- `ModelExecutor._begin`
  unfoldable pub begin : ℕ → Claim → Db → Result (Begun × Db)
  begin now c db = do
    row ← or_fault (job_of c.id db) unknown_job
    require (owns now c row) lease_lost
    m ← or_fault (model_of row.id db) missing_request
    elim m.result [ some r ↦ ok (cached r, db) | none ↦ unanswered now c row m db ]

-- A reply of the provider, as far as `parse_usage` and `parse_response` read it; `complete` stands
-- for a completed status with text and no refusal, `well_formed` for the checks of the output items.
pub record Reply : Type 0 where
  pub model : String
  pub final : Bool
  pub input_tokens : ℕ
  pub output_tokens : ℕ
  pub well_formed : Bool
  pub complete : Bool
  pub json : String

-- `parse_usage`: the accounted cost of a reply inside the approved envelope
unfoldable pub parse_usage : Payload → Reply → Option ℕ
unfolding cost_microusd
parse_usage p r =
    if str_eq r.model openai_model
      && r.final
      && leb r.input_tokens (len p.input + 1024)
      && leb r.output_tokens p.max_output_tokens
    then some (cost_microusd r.input_tokens r.output_tokens)
    else none

abbrev with_usage : Reply → Option ℕ → Option WorkerResult
with_usage r none = none
with_usage r (some cost) =
    if r.well_formed
    then some (record {
      ok = some r.complete;
      provider_calls_made = some true;
      retry_allowed = false;
      accounted = cost;
      json = r.json;
    })
    else none

-- The local model costs nothing; its other checks are in `well_formed`.
abbrev local_answer : Reply → Option WorkerResult
local_answer r =
    if r.well_formed
    then some (record {
      ok = some r.complete;
      provider_calls_made = some true;
      retry_allowed = false;
      accounted = 0;
      json = r.json;
    })
    else none

abbrev fallback : Payload → WorkerResult
fallback p = if is_local p then local_unavailable else unknown_result

abbrev without_secret : Env → Payload → Option WorkerResult → WorkerResult
without_secret env p none = fallback p
without_secret env p (some r) = if env.contains_secret r.json then fallback p else r

-- The result of `execute` from what the transport observed; none is an exception on the way.
unfoldable pub outcome : Env → Payload → Option Reply → WorkerResult
outcome env p none = fallback p
outcome env p (some r) =
    without_secret env p (if is_local p then local_answer r else with_usage r (parse_usage p r))

unfoldable pub recorded : Payload → WorkerResult → ModelRow → ModelRow
recorded p r m =
    if is_true r.provider_calls_made
    then record m { state = settled; held = 0; charged = r.accounted; result = some r }
    else if is_local p
    then record m { state = approved; held = 0; result = none }
    else record m { state = unknown; result = some r }

abbrev stored : ModelRow → WorkerResult
stored m = elim m.result [ none ↦ unknown_result | some r ↦ r ]

-- The last transaction of `execute`.
unfoldable pub finish : ℕ → Payload → WorkerResult → Db → Result (WorkerResult × Db)
unfolding recorded
finish id p r db = do
  row ← or_fault (job_of id db) unknown_job
  m ← or_fault (model_of id db) missing_request
  elim m.state [
    | reconciled ↦ ok (stored m, db)
    | _ ↦ ok (r, log (model_result_recorded row.id) (set_model id (recorded p r) db))
  ]
