-- ===== src/Risk.antt =====
-- src/leon_control_plane/risk_policy.py: risk classes, their inference and the autonomy policy.
-- A `metadata` dictionary is a record of the keys that the code reads; a missing key is its default.
pub mod Policy
pub mod Inference
pub mod Gates
mod Examples
use leon_ai_assistant.Base.{
  Bool, false, true, ◌&&◌, ◌||◌, not, String, List, [], ◌∷◌, str_eq, if◌then◌else◌, map,
}
use leon_ai_assistant.Base.Text.{contains, contains_any, one_of, intersects, normalized}

pub data RiskClass : Type 0 where
  r1 r2 r3 r4 r5 : RiskClass

pub data Coarse : Type 0 where
  low medium high : Coarse

pub data Decision : Type 0 where
  autonomous needs_review blocked : Decision

pub data ApprovalState : Type 0 where
  not_approvable not_required approved_consumed required_before_action : ApprovalState

pub record Metadata : Type 0 where
  pub allowed_actions : List String
  pub external_effects : List String
  pub source_type : String
  pub resource_profile : String
  pub cost_profile : String
  pub hard_blocked : Bool
  pub tests_passed : Bool
  pub diff_limited : Bool

abbrev pub no_metadata : Metadata
no_metadata = record {
  allowed_actions = [];
  external_effects = [];
  source_type = "";
  resource_profile = "";
  cost_profile = "";
  hard_blocked = false;
  tests_passed = false;
  diff_limited = false;
}

unfoldable pub r5_actions : List String
r5_actions =
    "connect" ∷ "connect_account" ∷ "install" ∷ "install_dependency" ∷ "install_dependencies"
    ∷ "package_install" ∷ "public_deploy" ∷ "resource_heavy" ∷ "spend_money" ∷ "payment"
    ∷ "purchase" ∷ "read_raw_secret" ∷ "secret_change" ∷ "account_permission_change" ∷ []

unfoldable pub r4_actions : List String
r4_actions = "write" ∷ "send_email" ∷ "calendar_mutation" ∷ "external_write" ∷ "post_publicly" ∷ []

unfoldable pub r3_actions : List String
r3_actions = "modify_files" ∷ "write_code" ∷ "execute_shell_commands" ∷ "system_change" ∷ []

unfoldable pub r2_actions : List String
r2_actions =
    "local_persistent_write" ∷ "memory_store" ∷ "graph_node_add" ∷ "task_create" ∷ "config_update"
    ∷ []

unfoldable pub r1_actions : List String
r1_actions =
    "local_temp_processing" ∷ "summarize" ∷ "embedding_generate" ∷ "cache_build"
    ∷ "local_mock_agent_run" ∷ "local_text_agent_run" ∷ []

unfoldable pub read_only_actions : List String
read_only_actions =
    "read" ∷ "web_research" ∷ "memory_retrieval" ∷ "status_check" ∷ "source_review"
    ∷ "direct_answer" ∷ []

unfoldable pub hard_block_actions : List String
hard_block_actions =
    "read_raw_secret" ∷ "secret_exfiltration" ∷ "unsafe_abuse" ∷ "malware" ∷ "phishing"
    ∷ "captcha_bypass" ∷ []

unfoldable pub coarse_risk_level : RiskClass → Coarse
coarse_risk_level r1 = low
coarse_risk_level r2 = medium
coarse_risk_level r3 = medium
coarse_risk_level r4 = high
coarse_risk_level r5 = high

-- The texts that `infer_risk_class` compares, normalized once.
pub record Request : Type 0 where
  pub action : String
  pub scope : String
  pub allowed : List String
  pub effects : List String
  pub source : String
  pub resource : String
  pub cost : String

unfoldable pub request : String → String → Metadata → Request
request action_type requested_scope m = record {
  action = normalized action_type;
  scope = normalized requested_scope;
  allowed = map normalized m.allowed_actions;
  effects = map normalized m.external_effects;
  source = normalized m.source_type;
  resource = normalized m.resource_profile;
  cost = normalized m.cost_profile;
}

-- `action in actions or allowed_actions.intersection(actions)`
unfoldable pub names_any : Request → List String → Bool
names_any q actions = one_of q.action actions || intersects q.allowed actions

unfoldable pub has_effects : Request → Bool
has_effects q = elim q.effects [ [] ↦ false | _ ∷ _ ↦ true ]

unfoldable pub hard_block_marker : String → String → Bool
hard_block_marker action scope =
    contains_any action hard_block_actions
    || contains "raw_secret" scope
    || contains "secret_value" scope

-- The ladder of returns, its tests in the order of the code.
unfoldable pub classify : Request → RiskClass
classify q =
    if hard_block_marker q.action q.scope
    then r5
    else if names_any q r5_actions
    then r5
    else if contains_any q.scope
        ("public" ∷ "payment" ∷ "billing" ∷ "account_permission" ∷ "secret" ∷ "install" ∷ [])
    then r5
    else if contains "gpu" q.resource || contains "heavy" q.resource || contains "billable" q.cost
    then r5
    else if names_any q r4_actions
    then r4
    else if has_effects q && not (one_of q.action read_only_actions) && not (str_eq q.action "read")
    then r4
    else if one_of q.source ("api_connector" ∷ "mcp_server" ∷ []) && str_eq q.action "write"
    then r4
    else if names_any q r3_actions
    then r3
    else if contains_any q.scope ("project:file" ∷ "repo:write" ∷ "system:" ∷ [])
    then r3
    else if names_any q r2_actions
    then r2
    else if contains_any q.scope ("memory:" ∷ "graph:" ∷ "task:" ∷ "config:" ∷ [])
        && not (str_eq q.action "read")
    then r2
    else if names_any q r1_actions
    then r1
    else if one_of q.action read_only_actions
    then r1
    else if str_eq q.action ""
    then r5
    else r3

unfoldable pub infer_risk_class : String → String → Metadata → RiskClass
infer_risk_class action_type requested_scope m = classify (request action_type requested_scope m)
