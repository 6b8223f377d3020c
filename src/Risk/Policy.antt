-- ===== src/Risk/Policy.antt =====
-- src/leon_control_plane/risk_policy.py: `evaluate_action_policy` and `classify_request_policy`.
-- `none` is the ValueError for an unknown risk class. The texts that only explain a decision (label,
-- examples, rollback, reason) are left out.
use leon_ai_assistant.Base.{
  Bool, false, true, ◌&&◌, ◌||◌, not, String, List, [], ◌∷◌, Option, none, some, str_eq,
  if◌then◌else◌,
}
use leon_ai_assistant.Base.Text.{contains_any, one_of, normalized, lower}
use leon_ai_assistant.Risk.{
  RiskClass, r1, r2, r3, r4, r5, Coarse, Decision, autonomous, needs_review, blocked, ApprovalState,
  not_approvable, not_required, approved_consumed, required_before_action, Metadata, no_metadata,
  coarse_risk_level, hard_block_marker, infer_risk_class,
}

-- The keyword arguments; a missing text is `none`.
pub record Call : Type 0 where
  pub action_type : String
  pub requested_scope : String
  pub risk_class : Option String
  pub approval_id : Option String
  pub approval_status : Option String
  pub explicit_approval : Bool
  pub metadata : Metadata

pub record Verdict : Type 0 where
  pub risk_class : RiskClass
  pub coarse : Coarse
  pub decision : Decision
  pub execution_allowed : Bool
  pub requires_review : Bool
  pub approval_required : Bool
  pub approval_first_required : Bool
  pub approval_state : ApprovalState
  pub explicit_approval_present : Bool
  pub hard_blocked : Bool

-- `RISK_CLASSES` as a table from texts
unfoldable pub parse_class : String → Option RiskClass
parse_class s =
    if str_eq s "R1"
    then some r1
    else if str_eq s "R2"
    then some r2
    else if str_eq s "R3"
    then some r3
    else if str_eq s "R4"
    then some r4
    else if str_eq s "R5"
    then some r5
    else none

-- a text that is there and not empty
abbrev pub truthy : Option String → Bool
truthy none = false
truthy (some s) = not (str_eq s "")

abbrev is_consumed : Option String → Bool
is_consumed none = false
is_consumed (some s) = str_eq s "consumed"

unfoldable pub approval_present : Option String → Option String → Bool → Bool
approval_present approval_id approval_status explicit =
    explicit || truthy approval_id && is_consumed approval_status

-- `risk_class or infer_risk_class(…)`, then the check that it is a known class
unfoldable pub selected_class : Call → Option RiskClass
unfolding parse_class
selected_class c = elim c.risk_class [
  | none ↦ some (infer_risk_class c.action_type c.requested_scope c.metadata)
  | some s ↦
      if str_eq s ""
      then some (infer_risk_class c.action_type c.requested_scope c.metadata)
      else parse_class s
]

unfoldable pub is_hard_blocked : Call → Bool
is_hard_blocked c =
    hard_block_marker (normalized c.action_type) (normalized c.requested_scope)
    || c.metadata.hard_blocked

abbrev or_autonomous : Bool → Decision → Decision
or_autonomous b d = if b then autonomous else d

unfoldable pub decide : RiskClass → (hard approved tested limited : Bool) → Decision
decide c true approved tested limited = blocked
decide r1 false approved tested limited = autonomous
decide r2 false approved tested limited = autonomous
decide r3 false approved tested limited = or_autonomous (tested && limited) needs_review
decide r4 false approved tested limited = or_autonomous approved needs_review
decide r5 false approved tested limited = or_autonomous approved blocked

abbrev pub is_autonomous : Decision → Bool
is_autonomous autonomous = true
is_autonomous _ = false

abbrev is_needs_review : Decision → Bool
is_needs_review needs_review = true
is_needs_review _ = false

-- `selected_risk_class in {"R4", "R5"}`
abbrev pub approval_first : RiskClass → Bool
approval_first r4 = true
approval_first r5 = true
approval_first _ = false

unfoldable pub state_of_approval : RiskClass → (hard approved : Bool) → ApprovalState
state_of_approval c hard approved =
    if hard
    then not_approvable
    else if not (approval_first c)
    then not_required
    else if approved
    then approved_consumed
    else required_before_action

unfoldable pub verdict : Call → RiskClass → Verdict
unfolding decide state_of_approval coarse_risk_level
verdict c class =
    let hard = is_hard_blocked c in
    let approved = approval_present c.approval_id c.approval_status c.explicit_approval in
    let decision = decide class hard approved c.metadata.tests_passed c.metadata.diff_limited in
    record {
      risk_class = class;
      coarse = coarse_risk_level class;
      decision = decision;
      execution_allowed = is_autonomous decision;
      requires_review = is_needs_review decision;
      approval_required = approval_first class && not (is_autonomous decision) && not hard;
      approval_first_required = approval_first class;
      approval_state = state_of_approval class hard approved;
      explicit_approval_present = approved;
      hard_blocked = hard;
    }

abbrev map_class : Option RiskClass → (RiskClass → Verdict) → Option Verdict
map_class none f = none
map_class (some c) f = some (f c)

unfoldable pub evaluate_action_policy : Call → Option Verdict
evaluate_action_policy c = map_class (selected_class c) (verdict c)

-- A call with the action alone.
abbrev pub action_call : String → Call
action_call action = record {
  action_type = action;
  requested_scope = "";
  risk_class = none;
  approval_id = none;
  approval_status = none;
  explicit_approval = false;
  metadata = no_metadata;
}

abbrev pub hard_blocked_call : String → Call
hard_blocked_call action = record (action_call action) {
  metadata = record no_metadata { hard_blocked = true };
}

-- The call that `classify_request_policy` makes.
unfoldable pub request_call : String → List String → String → Call
request_call route signals text =
    if one_of "refuse_unsafe" signals
    then hard_blocked_call "unsafe_abuse"
    else if one_of "money_or_purchase" signals
    then action_call "spend_money"
    else if one_of "install_or_infra" signals
    then action_call "install"
    else if contains_any (lower text) ("api key" ∷ "secret" ∷ "password" ∷ "wachtwoord" ∷ [])
    then action_call "secret_change"
    else if one_of "external_write" signals
    then action_call "external_write"
    else if str_eq route "task_queue"
    then record (action_call "task_create") { requested_scope = "task:queue" }
    else if str_eq route "memory_retrieval"
    then action_call "memory_retrieval"
    else if str_eq route "research_agent"
    then action_call "web_research"
    else if str_eq route "quick_tool_use"
    then action_call "status_check"
    else if one_of "coding" signals
    then action_call "write_code"
    else action_call "direct_answer"

unfoldable pub classify_request_policy : String → List String → String → Option Verdict
classify_request_policy route signals text =
    evaluate_action_policy (request_call route signals text)
