-- ===== src/Model/Receipts.antt =====
-- src/leon_control_plane/model_receipts.py: the usage that the transport observed is recorded as a receipt,
-- from which the cost of a lost reply can be reconciled. SHA-256 of a receipt's JSON is an argument.
use leon_ai_assistant.Base.{
  ℕ, Bool, true, false, ◌&&◌, not, String, List, ◌∷◌, [], Option, none, some, ◌==◌, leb, is_some,
  if◌then◌else◌,
}
use leon_ai_assistant.Base.Rows.{find}
use leon_ai_assistant.Base.Text.{one_of}
use leon_ai_assistant.Db.{
  Db, Job, ModelRow, ModelState, unknown, reconciled, Payload, WorkerResult, Result, ok, require,
  or_fault, ◌>>=◌, ◌>>◌, job_of, model_of, set_model, log, model_usage_observed,
  model_cost_reconciled, unknown_job, usage_mismatch, conflicting_usage, invalid_usage,
  nothing_to_reconcile, receipt_damaged, digest_mismatch, other_receipt, usage_differs,
  usage_exceeds, review_required, receipt_changed,
}
use leon_ai_assistant.Model.{Env, same_payload}
use leon_ai_assistant.Model.Ledger.{Reply, parse_usage, is_unknown}
use leon_ai_assistant.Work.{View, view}

-- A reply of the provider, as far as `parse_usage` reads it.
pub record Observed : Type 0 where
  pub model : String
  pub status : String
  pub has_error : Bool
  pub input_tokens : ℕ
  pub output_tokens : ℕ

unfoldable pub to_reply : Observed → Reply
to_reply o = record {
  model = o.model;
  final = one_of o.status ("completed" ∷ "incomplete" ∷ []) && not o.has_error;
  input_tokens = o.input_tokens;
  output_tokens = o.output_tokens;
  well_formed = false;
  complete = false;
  json = "";
}

pub record Receipt : Type 0 where
  pub job_id : ℕ
  pub request_id : ℕ
  pub approval_digest : ℕ
  pub model : String
  pub provider_status : String
  pub input_tokens : ℕ
  pub output_tokens : ℕ
  pub accounted : ℕ

-- model_usage_receipts
pub record ReceiptRow : Type 0 where
  pub job_id : ℕ
  pub receipt : Receipt
  pub digest : ℕ

pub record Books : Type 0 where
  pub db : Db
  pub receipts : List ReceiptRow

abbrev pub receipt_of : ℕ → Books → Option ReceiptRow
receipt_of id b = find (λ (r : ReceiptRow). r.job_id == id) b.receipts

unfoldable pub fresh_receipt : Job → ModelRow → Observed → ℕ → Receipt
fresh_receipt j m o cost = record {
  job_id = j.id;
  request_id = j.request_id;
  approval_digest = m.digest;
  model = o.model;
  provider_status = o.status;
  input_tokens = o.input_tokens;
  output_tokens = o.output_tokens;
  accounted = cost;
}

abbrev pub is_state : ModelState → Bool
is_state unknown = true
is_state reconciled = true
is_state _ = false

abbrev pub is_reconciled : ModelState → Bool
is_reconciled reconciled = true
is_reconciled _ = false

-- The reply that a receipt stands for.
unfoldable pub replayed : Receipt → Observed
replayed r = record {
  model = r.model;
  status = r.provider_status;
  has_error = false;
  input_tokens = r.input_tokens;
  output_tokens = r.output_tokens;
}

-- The receipt names this job, its request and this approval.
abbrev pub belongs : ℕ → Job → ModelRow → Receipt → Bool
belongs id j m r = r.job_id == id && r.request_id == j.request_id && r.approval_digest == m.digest

-- What `_proposal` returns, as far as it is used.
pub record Proposal : Type 0 where
  pub digest : ℕ
  pub accounted : ℕ
  pub state : ModelState

unfoldable pub cost_result : ℕ → WorkerResult
cost_result cost = record {
  ok = some false;
  provider_calls_made = some true;
  retry_allowed = false;
  accounted = cost;
  json = "answer_unavailable_cost_reconciled";
}

unfoldable pub settled_cost : ℕ → ModelRow → ModelRow
unfolding cost_result
settled_cost cost m = record m {
  state = reconciled;
  held = 0;
  charged = cost;
  result = some (cost_result cost);
}

abbrev pub receipt_row : (Receipt → ℕ) → ℕ → Receipt → ReceiptRow
receipt_row digest_of id r = record { job_id = id; receipt = r; digest = digest_of r }

abbrev pub added : (Receipt → ℕ) → ℕ → Receipt → Books → Books
added digest_of id r b = record {
  db = log (model_usage_observed id) b.db;
  receipts = receipt_row digest_of id r ∷ b.receipts;
}

abbrev pub settled_books : ℕ → ℕ → Books → Books
settled_books id cost b = record b {
  db = log (model_cost_reconciled id) (set_model id (settled_cost cost) b.db);
}

unfoldable pub reconciled_books : ℕ → Proposal → Books → Books
reconciled_books id p b = if is_reconciled p.state then b else settled_books id p.accounted b

module _ (env : Env) (digest_of : Receipt → ℕ) where
  unfoldable pub store_receipt : ℕ → Receipt → Books → Result Books
  store_receipt id r b = elim (receipt_of id b) [
    | some old ↦ (do require (old.digest == digest_of r) conflicting_usage; ok b)
    | none ↦ ok (added digest_of id r b)
  ]

  -- `record`
  unfoldable pub record_usage : ℕ → Payload → Observed → Books → Result Books
  unfolding fresh_receipt
  record_usage id p o b = do
    cost ← or_fault (parse_usage p (to_reply o)) invalid_usage
    j ← or_fault (job_of id b.db) unknown_job
    m ← or_fault (model_of id b.db) usage_mismatch
    require (is_some m.sent_at && same_payload m.request.payload p) usage_mismatch
    store_receipt id (fresh_receipt j m o cost) b

  -- `_proposal`
  unfoldable pub proposal : ℕ → Books → Result Proposal
  unfolding replayed
  proposal id b = do
    j ← or_fault (job_of id b.db) unknown_job
    m ← or_fault (model_of id b.db) nothing_to_reconcile
    r ← or_fault (receipt_of id b) nothing_to_reconcile
    require (is_state m.state) nothing_to_reconcile
    require (digest_of r.receipt == r.digest) receipt_damaged
    require (env.digest m.request == m.digest) digest_mismatch
    require (belongs id j m r.receipt) other_receipt
    cost ← or_fault (parse_usage m.request.payload (to_reply (replayed r.receipt))) invalid_usage
    require (r.receipt.accounted == cost) usage_differs
    require (not (is_unknown m.state && not (leb cost m.held))) usage_exceeds
    ok (record { digest = r.digest; accounted = cost; state = m.state })

  unfoldable pub reconcile : ℕ → ℕ → Bool → Books → Result (View × Books)
  reconcile id digest approved b = do
    require approved review_required
    p ← proposal id b
    require (digest == p.digest) receipt_changed
    j ← or_fault (job_of id b.db) unknown_job
    ok (view (reconciled_books id p b).db j, reconciled_books id p b)
