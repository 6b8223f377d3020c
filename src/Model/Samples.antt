-- ===== src/Model/Samples.antt =====
-- A ledger with one approved paid request, whose job is leased.
use leon_ai_assistant.Routing.Samples.{policy, print}
use leon_ai_assistant.Base.{true, false, [], ◌∷◌, none, some}
use leon_ai_assistant.Db.{
  Db, active, openai_text, running, no_error, Result, ok, err, Payload, openai, Approved, ModelRow,
  approved, unknown, sending, WorkerResult, Job, model_send_authorized, model_unknown,
  model_result_recorded,
}
use leon_ai_assistant.Base.{◌≡◌, refl}
use leon_ai_assistant.Base.Text.{lower, strip, one_of}
use leon_ai_assistant.Routing.Choose.{
  pick, asked, premium_task_types, balanced_task_types, low_cost_task_types,
}
use leon_ai_assistant.Routing.Route.{
  choose_route, may_run_locally, build_cloud_route, needs_approval,
}
use leon_ai_assistant.Model.{cheap_route_ok, Env, LocalConfig, OpenAiConfig, openai_model, Details}
use leon_ai_assistant.Model.Ledger.{unknown_result, outcome, finish, Reply}
use leon_ai_assistant.Work.Claim.{Claim}
use leon_ai_assistant.Work.{View, view}
use leon_ai_assistant.Base.{ℕ}
use leon_ai_assistant.Model.Receipts.{Observed, Receipt, fresh_receipt, Books, added, settled_books}

abbrev pub env : Env
env = record {
  contains_secret = λ s. false;
  routing = policy;
  print = print;
  digest = λ a. a.max_cost_microusd;
  today = 739000;
}

abbrev pub config : OpenAiConfig
config = record { enabled = true; api_key = "key"; daily_microusd = 5000; total_microusd = 20000 }

abbrev pub no_local : LocalConfig
no_local = record {
  enabled = false;
  host = "";
  port = 0;
  model = "";
  num_ctx = 0;
  timeout_seconds = 0;
  max_temp_c = 0;
  gpu_priority = "";
}

abbrev pub details : Details
details = record {
  prompt = "hello";
  max_output_tokens = 64;
  max_cost_microusd = 1000;
  approve_external_text = true;
  provider = none;
}

abbrev pub payload : Payload
payload = record {
  provider = openai;
  model = openai_model;
  input = "hello";
  max_output_tokens = 64;
  num_ctx = 0;
}

abbrev pub request : Approved
request = record { payload = payload; max_cost_microusd = 1000 }

abbrev pub row : ModelRow
row = record {
  job_id = 7;
  request = request;
  digest = 1000;
  state = approved;
  held = 0;
  charged = 0;
  sent_at = none;
  result = none;
}

abbrev pub leased : Job
leased = record {
  id = 7;
  request_id = 70;
  task_id = 1;
  kind = openai_text;
  status = running;
  next_step = 0;
  attempts = 1;
  lease_token = some 55;
  lease_until = some 150;
  error = no_error;
  created_at = 100;
  updated_at = 120;
}

abbrev pub ledger : Db
ledger = record {
  tasks = record { id = 1; status = active; approval_required = false; risk_level = "low" } ∷ [];
  jobs = leased ∷ [];
  checkpoints = [];
  models = row ∷ [];
  runs = [];
  proposals = [];
  bindings = [];
  chat_jobs = [];
  audit = [];
}

abbrev pub claim_one : Claim
claim_one = record { id = 7; task_id = 1; step = 0; kind = openai_text; token = 55; results = [] }

abbrev db_after {ℓ} : {A : Type ℓ} → Result (A × Db) → Db
db_after (ok r) = r.1
db_after (err e) = ledger

abbrev pub sent_row : ModelRow
sent_row = record row { state = sending; held = 335; sent_at = some 125 }

abbrev pub sent_ledger : Db
sent_ledger = record ledger { models = sent_row ∷ []; audit = model_send_authorized 7 ∷ [] }

-- The ledger once the reply of the request was lost.
abbrev pub lost_row : ModelRow
lost_row = record row {
  state = unknown;
  held = 335;
  sent_at = some 125;
  result = some unknown_result;
}

abbrev pub lost_books : Books
lost_books = record {
  db = record ledger {
    models = lost_row ∷ [];
    audit = model_result_recorded 7 ∷ model_send_authorized 7 ∷ [];
  };
  receipts = [];
}

abbrev pub observed : Observed
observed = record {
  model = openai_model;
  status = "completed";
  has_error = false;
  input_tokens = 12;
  output_tokens = 40;
}

abbrev pub receipt_digest : Receipt → ℕ
receipt_digest r = r.accounted

abbrev pub receipt : Receipt
receipt = fresh_receipt leased row observed 51

abbrev pub recorded_books : Books
recorded_books = added receipt_digest 7 receipt lost_books

abbrev pub done_books : Books
done_books = settled_books 7 51 recorded_books

abbrev pub done_view : View
done_view = view done_books.db leased

-- The usage is recorded while the request is on its way; then the job is claimed again.
abbrev pub observed_books : Books
observed_books = added receipt_digest 7 receipt (record { db = sent_ledger; receipts = [] })

abbrev pub lost_ledger : Db
lost_ledger = record observed_books.db {
  models = record sent_row { state = unknown } ∷ [];
  audit = model_unknown 7 ∷ observed_books.db.audit;
}

abbrev pub settled_lost_books : Books
settled_lost_books = settled_books 7 51 (record observed_books { db = lost_ledger })

-- The ledger once the reply arrived.
abbrev pub reply : Reply
reply = record {
  model = openai_model;
  final = true;
  input_tokens = 12;
  output_tokens = 40;
  well_formed = true;
  complete = true;
  json = "{}";
}

abbrev pub answer : WorkerResult
answer = outcome env payload (some reply)

abbrev pub settled_ledger : Db
settled_ledger = db_after (finish 7 payload answer sent_ledger)

pub cheap_ok : cheap_route_ok env ≡ true
unfolding cheap_route_ok choose_route may_run_locally build_cloud_route pick asked lower strip
    one_of premium_task_types balanced_task_types low_cost_task_types needs_approval
cheap_ok = refl
