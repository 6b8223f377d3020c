-- ===== src/Routing/Costs.antt =====
-- src/leon_control_plane/model_policy.py: what a route costs, when it carries a warning, and why a local
-- route is given up. How a number is printed is an argument.
use leon_ai_assistant.Base.{
  ℕ, Bool, true, false, ◌||◌, String, Option, none, some, ltb, ◌==◌, if◌then◌else◌,
}
use Prim.Native.String.{◌++◌}
use leon_ai_assistant.Base.Text.{one_of, strip, lower}
use leon_ai_assistant.Routing.{
  RouteName, cheap, balanced, premium, local_gpu, Runtime, on_local_gpu, CloudModel, LocalGpu,
  RoutingPolicy, Latency, measured, Warning, RouteDecision,
}
use leon_ai_assistant.Runs.{or_default}
use leon_ai_assistant.Routing.Choose.{local_failure_statuses, is_premium}

abbrev pub or_number : Option ℕ → ℕ → ℕ
or_number none default = default
or_number (some n) default = n

abbrev pub or_text : Option String → String → String
or_text none default = default
or_text (some s) default = s

-- DEFAULT_ROUTE_COSTS
pub record RouteCost : Type 0 where
  pub relative_cost : String
  pub estimated_min : ℕ
  pub estimated_max : ℕ

unfoldable pub default_costs : RouteName → RouteCost
default_costs cheap = record { relative_cost = "low"; estimated_min = 10; estimated_max = 150 }
default_costs balanced = record {
  relative_cost = "medium";
  estimated_min = 100;
  estimated_max = 800;
}
default_costs premium = record { relative_cost = "high"; estimated_min = 500; estimated_max = 3500 }
default_costs local_gpu = record {
  relative_cost = "local_resource";
  estimated_min = 0;
  estimated_max = 0;
}

-- `policy["cloud_models"][route]`; the router never asks it for `local_gpu`.
abbrev pub cloud_model : RoutingPolicy → RouteName → CloudModel
cloud_model p cheap = p.cheap_model
cloud_model p premium = p.premium_model
cloud_model p _ = p.balanced_model

pub record CostProfile : Type 0 where
  pub currency : String
  pub relative_cost : String
  pub estimated_min : ℕ
  pub estimated_max : ℕ
  pub basis : String
  pub warning_threshold : ℕ

unfoldable pub route_cost_profile : RoutingPolicy → RouteName → CostProfile
unfolding default_costs
route_cost_profile p route = record {
  currency = or_text p.costs.currency "USD";
  relative_cost =
      or_default (cloud_model p route).relative_cost (default_costs route).relative_cost;
  estimated_min = or_number (cloud_model p route).estimated_min (default_costs route).estimated_min;
  estimated_max = or_number (cloud_model p route).estimated_max (default_costs route).estimated_max;
  basis =
      or_text p.costs.basis
        "Planning estimate for one bounded Leon agent/model call before exact token metering is available.";
  warning_threshold = or_number p.costs.warning_threshold 800;
}

unfoldable pub cost_warning : RouteName → String → CostProfile → Warning
cost_warning route reason c =
    if is_premium route || ltb c.warning_threshold c.estimated_max
    then record { required = true; severity = "attention"; reason = reason }
    else record { required = false; severity = "none"; reason = reason }

abbrev pub label_of : Bool → Runtime → String
label_of true runtime = "API fallback"
label_of false on_local_gpu = "Local M40/GPU"
label_of false _ = "API route"

unfoldable pub route_decision :
    Runtime → RouteName → RouteName → String → Bool → Bool → Bool → RouteDecision
route_decision runtime primary final reason fallback allowed attempted = record {
  label = label_of fallback runtime;
  selected_runtime = runtime;
  primary_route = primary;
  final_route = final;
  reason = reason;
  fallback_active = fallback;
  local_route_allowed = allowed;
  local_attempted = attempted;
}

-- `_runtime_policy(…)["max_latency_ms"]`
unfoldable pub max_latency : LocalGpu → ℕ
max_latency g = elim g.max_latency_ms [ none ↦ 3500 | some n ↦ if n == 0 then 3500 else n ]

unfoldable pub normalize_latency_ms : Latency → Option ℕ
normalize_latency_ms (measured n) = some n
normalize_latency_ms _ = none

abbrev pub exceeds : Option ℕ → ℕ → Bool
exceeds none limit = false
exceeds (some n) limit = ltb limit n

module _ (print : ℕ → String) where
  unfoldable pub fallback_reason : String → Option ℕ → ℕ → Option String
  fallback_reason status latency limit =
      if one_of (lower (strip status)) local_failure_statuses
      then some ("Local GPU route reported " ++ lower (strip status) ++ "; using API fallback.")
      else if exceeds latency limit
      then some (
          "Local GPU route latency "
          ++ print (or_number latency 0)
          ++ "ms exceeded "
          ++ print limit
          ++ "ms threshold; using API fallback.")
      else none
