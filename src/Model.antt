-- ===== src/Model.antt =====
-- src/leon_control_plane/openai_text.py, src/leon_control_plane/local_model.py, src/leon_control_plane/model_work.py:
-- approved text-only model requests, their configuration checks and their price.
-- `Env` holds what is outside the model: the secret scanner, the configured routing policy and how
-- `choose_route` prints a number, SHA-256 of an approved request's JSON, and today's date as an ordinal.
pub mod Price
pub mod Ledger
pub mod Spending
pub mod Rows
pub mod Once
pub mod Receipts
pub mod Reconcile
pub mod Again
pub mod Lost
pub mod Recovery
pub mod Budget
pub mod Samples
mod Examples
use Prim.Native.Char.{code}
use Prim.Native.String.{len}
use leon_ai_assistant.Base.{
  ℕ, ◌+◌, ◌*◌, ◌/◌, Bool, true, false, ◌&&◌, ◌||◌, not, String, [], ◌∷◌, Option, none, some, leb,
  ◌==◌, str_eq, if◌then◌else◌,
}
use leon_ai_assistant.Base.Text.{strip, one_of}
use leon_ai_assistant.Routing.{RoutingPolicy, RouteName, cheap, Query, not_given}
use leon_ai_assistant.Routing.Route.{choose_route}
use leon_ai_assistant.Db.{
  Result, ok, err, require, ◌>>=◌, ◌>>◌, Approved, Payload, openai, ollama, Fault,
  provider_disabled, bad_text, bad_output_limit, bad_cost_cap, approval_missing,
  cap_below_reservation, bad_provider, secret_found, contract_mismatch, is_local,
}

abbrev pub openai_model : String
openai_model = "gpt-5.6-luna"

-- date(2026, 10, 7)
abbrev pub price_valid_until : ℕ
price_valid_until = 739896

pub record Env : Type 0 where
  pub contains_secret : String → Bool
  pub routing : RoutingPolicy
  pub print : ℕ → String
  pub digest : Approved → ℕ
  pub today : ℕ

pub record OpenAiConfig : Type 0 where
  pub enabled : Bool
  pub api_key : String
  pub daily_microusd : ℕ
  pub total_microusd : ℕ

pub record LocalConfig : Type 0 where
  pub enabled : Bool
  pub host : String
  pub port : ℕ
  pub model : String
  pub num_ctx : ℕ
  pub timeout_seconds : ℕ
  pub max_temp_c : ℕ
  pub gpu_priority : String

-- A number that Python would reject as below 1 is 0 here.
unfoldable pub positive_int : ℕ → ℕ → Fault → Result ℕ
positive_int value maximum e = if leb 1 value && leb value maximum then ok value else err e

abbrev any_space : String → Bool
any_space String.[] = false
any_space (String.◌∷◌ c s) =
    leb 9 (code c) && leb (code c) 13 || leb 28 (code c) && leb (code c) 32 || any_space s

-- `OpenAiConfig.validate`
unfoldable pub validate : Env → OpenAiConfig → Result (Unit {0})
unfolding positive_int
validate env c = do
  require c.enabled provider_disabled
  require (not (str_eq c.api_key "") && not (any_space c.api_key)) provider_disabled
  daily ← positive_int c.daily_microusd 1000000000 provider_disabled
  total ← positive_int c.total_microusd 1000000000 provider_disabled
  require (leb env.today price_valid_until) provider_disabled

abbrev name_char : ℕ → Bool
name_char c = leb b'A' c && leb c b'Z' || leb b'a' c && leb c b'z' || leb b'-' c && leb c b':'

abbrev name_chars : String → Bool
name_chars String.[] = true
name_chars (String.◌∷◌ c s) = (name_char (code c) || str_eq (String.◌∷◌ c "") "_") && name_chars s

-- `LocalModelConfig.validate`; the order of its checks decides only the message.
unfoldable pub validate_local : LocalConfig → Result (Unit {0})
unfolding one_of
validate_local c = do
  require c.enabled provider_disabled
  require (str_eq c.host "127.0.0.1") provider_disabled
  require (leb 1 c.port && leb c.port 65535) provider_disabled
  require (leb 1 (len c.model) && leb (len c.model) 128 && name_chars c.model) provider_disabled
  require (leb 1024 c.num_ctx && leb c.num_ctx 32768) provider_disabled
  require (leb 10 c.timeout_seconds && leb c.timeout_seconds 600) provider_disabled
  require (leb 65 c.max_temp_c && leb c.max_temp_c 89) provider_disabled
  require (one_of c.gpu_priority ("chat" ∷ "reply" ∷ "shopper" ∷ "background" ∷ "coding" ∷ []))
      provider_disabled

-- The checks on the shared text and the output limit, common to both providers.
unfoldable pub check_text : Env → String → ℕ → Result (Unit {0})
unfolding positive_int
check_text env prompt limit = do
  require (not (str_eq (strip prompt) "") && leb (len prompt) 4096) bad_text
  require (not (env.contains_secret prompt)) secret_found
  checked ← positive_int limit 1024 bad_output_limit
  ok tt

-- The task for which `request_payload` asks the router.
unfoldable pub cheap_query : Query
cheap_query = record {
  task_type = "classification";
  complexity = "low";
  risk = "low";
  budget_mode = "economy";
  privacy = "";
  local_gpu_ready = false;
  local_route_status = "";
  local_latency = not_given;
}

abbrev is_cheap : RouteName → Bool
is_cheap cheap = true
is_cheap _ = false

-- The route is the cheap one, to the model that is priced, and needs no approval.
unfoldable pub cheap_route_ok : Env → Bool
unfolding cheap_query
cheap_route_ok env =
    let r = choose_route env.print env.routing cheap_query in
    str_eq r.provider "openai"
    && is_cheap r.route
    && str_eq r.model openai_model
    && not r.approval_required

-- `openai_text.request_payload`
unfoldable pub request_payload : Env → String → ℕ → Result Payload
unfolding check_text
request_payload env prompt limit = do
  check_text env prompt limit
  require (cheap_route_ok env) contract_mismatch
  ok (record {
    provider = openai;
    model = openai_model;
    input = prompt;
    max_output_tokens = limit;
    num_ctx = 0;
  })

-- `local_model.request_payload`
unfoldable pub local_request_payload : Env → String → ℕ → LocalConfig → Result Payload
unfolding validate_local check_text
local_request_payload env prompt limit c = do
  validate_local c
  check_text env prompt limit
  ok (record {
    provider = ollama;
    model = c.model;
    input = prompt;
    max_output_tokens = limit;
    num_ctx = c.num_ctx;
  })

-- Equality of two payloads, field by field.
unfoldable pub same_payload : Payload → Payload → Bool
same_payload a b =
    (is_local a && is_local b || not (is_local a) && not (is_local b))
    && str_eq a.model b.model
    && str_eq a.input b.input
    && a.max_output_tokens == b.max_output_tokens
    && a.num_ctx == b.num_ctx

unfoldable pub cost_microusd : ℕ → ℕ → ℕ
cost_microusd input_tokens output_tokens = (input_tokens * 250 + output_tokens * 1200 + 999) / 1000

unfoldable pub reservation : Payload → ℕ
unfolding cost_microusd
reservation p = cost_microusd (len p.input + 1024) p.max_output_tokens

-- The caller's request; `provider` is none where the key is missing.
pub record Details : Type 0 where
  pub prompt : String
  pub max_output_tokens : ℕ
  pub max_cost_microusd : ℕ
  pub approve_external_text : Bool
  pub provider : Option String

abbrev names : String → Option String → Bool
names s none = false
names s (some t) = str_eq t s

abbrev is_none : Option String → Bool
is_none none = true
is_none (some t) = false

with_hold : Payload → Result (Payload × ℕ)
with_hold p = ok (p, reservation p)

-- `model_work._route`: the payload and the money to hold for it
unfoldable pub route : Env → LocalConfig → Bool → Details → Result (Payload × ℕ)
unfolding with_hold
route env local busy d =
    if local.enabled && (names "ollama" d.provider || is_none d.provider && not busy)
    then (do p ← local_request_payload env d.prompt d.max_output_tokens local; ok (p, 0))
    else if names "ollama" d.provider
    then (do p ← local_request_payload env d.prompt d.max_output_tokens local; ok (p, 0))
    else if is_none d.provider || names "openai" d.provider
    then (do p ← request_payload env d.prompt d.max_output_tokens; with_hold p)
    else err bad_provider

-- `model_work.prepare`
unfoldable pub prepare : Env → LocalConfig → Bool → Details → Result Approved
unfolding positive_int
prepare env local busy d = do
  require d.approve_external_text approval_missing
  r ← route env local busy d
  cap ← positive_int d.max_cost_microusd 1000000 bad_cost_cap
  require (leb r.1 cap) cap_below_reservation
  ok (record { payload = r.0; max_cost_microusd = cap })
