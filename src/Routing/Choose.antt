-- ===== src/Routing/Choose.antt =====
-- src/leon_control_plane/model_policy.py: which cloud route a task gets.
use leon_ai_assistant.Base.{
  Bool, true, false, ◌&&◌, ◌||◌, not, String, List, ◌∷◌, [], str_eq, if◌then◌else◌,
}
use leon_ai_assistant.Base.Text.{one_of, strip, lower}
use leon_ai_assistant.Risk.{Coarse, low, medium, high}
use leon_ai_assistant.Routing.{RouteName, cheap, balanced, premium, Query}
use leon_ai_assistant.Runs.{or_default}

unfoldable pub low_cost_task_types : List String
low_cost_task_types =
    "classification" ∷ "extraction" ∷ "housekeeping" ∷ "schema_transform" ∷ "small_summary"
    ∷ "simple_summary" ∷ []

unfoldable pub balanced_task_types : List String
balanced_task_types =
    "tool_making" ∷ "debugging" ∷ "coding" ∷ "documentation" ∷ "routine_research"
    ∷ "shopping_research" ∷ "financial_analysis" ∷ "server_operations" ∷ "model_reference"
    ∷ "printer_monitoring" ∷ []

unfoldable pub premium_task_types : List String
premium_task_types =
    "architecture" ∷ "complex_planning" ∷ "code_review" ∷ "security_review" ∷ "high_value_decision"
    ∷ "sensitive_decision" ∷ "safety_governance" ∷ []

-- The premium task types that a person approves first.
unfoldable pub approval_task_types : List String
approval_task_types = "security_review" ∷ "high_value_decision" ∷ "sensitive_decision" ∷ []

unfoldable pub local_failure_statuses : List String
local_failure_statuses = "failed" ∷ "failure" ∷ "error" ∷ "unhealthy" ∷ "timeout" ∷ "too_slow" ∷ []

unfoldable pub coarse_risk : String → Coarse
coarse_risk value =
    if one_of (lower (strip value)) ("high" ∷ "r4" ∷ "r5" ∷ [])
    then high
    else if one_of (lower (strip value)) ("medium" ∷ "r2" ∷ "r3" ∷ [])
    then medium
    else low

abbrev pub is_high : Coarse → Bool
is_high high = true
is_high _ = false

abbrev pub is_low : Coarse → Bool
is_low low = true
is_low _ = false

abbrev pub is_balanced : RouteName → Bool
is_balanced balanced = true
is_balanced _ = false

abbrev pub is_premium : RouteName → Bool
is_premium premium = true
is_premium _ = false

-- The route and the reason, as the code's variables hold them.
pub record Picked : Type 0 where
  pub route : RouteName
  pub reason : String

unfoldable pub start : String → String → Coarse → Picked
start task_type complexity risk =
    if one_of task_type low_cost_task_types && not (is_high risk)
    then record {
      route = cheap;
      reason =
          "Simple classification, extraction, or housekeeping task; use lowest-cost capable model.";
    }
    else if str_eq complexity "low" && is_low risk
    then record {
      route = cheap;
      reason = "Low-complexity, low-risk task; use lowest-cost capable model.";
    }
    else record {
      route = balanced;
      reason = "Default balanced route for useful work without premium cost.";
    }

unfoldable pub for_tools : String → Picked → Picked
for_tools task_type p =
    if one_of task_type balanced_task_types && not (one_of task_type low_cost_task_types)
    then record {
      route = balanced;
      reason = "Tool/code work needs reliable reasoning, but not flagship by default.";
    }
    else p

unfoldable pub for_value : String → String → Coarse → Picked → Picked
for_value task_type complexity risk p =
    if one_of task_type premium_task_types || is_high risk || str_eq complexity "high"
    then record {
      route = premium;
      reason = "High complexity/risk/value requires stronger reasoning and review quality.";
    }
    else p

unfoldable pub for_economy : String → Coarse → Picked → Picked
for_economy budget_mode risk p =
    if str_eq budget_mode "economy" && is_balanced p.route && is_low risk
    then record {
      route = cheap;
      reason = "Economy budget mode allows cheaper route for low-risk work.";
    }
    else p

unfoldable pub for_quality : String → String → Picked → Picked
for_quality budget_mode complexity p =
    if str_eq budget_mode "quality" && is_balanced p.route && not (str_eq complexity "low")
    then record {
      route = premium;
      reason = "Quality budget mode escalates non-trivial work to premium.";
    }
    else p

-- The arguments once normalized.
pub record Asked : Type 0 where
  pub task_type : String
  pub complexity : String
  pub risk : Coarse
  pub budget_mode : String
  pub privacy : String

unfoldable pub asked : Query → Asked
unfolding coarse_risk
asked q = record {
  task_type = lower (strip (or_default q.task_type "general"));
  complexity = lower (or_default q.complexity "medium");
  risk = coarse_risk q.risk;
  budget_mode = lower (or_default q.budget_mode "balanced");
  privacy = lower (or_default q.privacy "normal");
}

unfoldable pub pick : Asked → Picked
unfolding start for_tools for_value for_economy for_quality
pick a = for_quality a.budget_mode a.complexity (
    for_economy a.budget_mode a.risk (
      for_value a.task_type a.complexity a.risk
        (for_tools a.task_type (start a.task_type a.complexity a.risk))))
