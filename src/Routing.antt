-- ===== src/Routing.antt =====
-- src/leon_control_plane/model_policy.py: which model a task is routed to, from the configured policy.
-- Costs are whole ten-thousandths of a dollar, as `round(…, 4)` leaves them; a text that is missing is
-- empty, since the code reads both alike. The warning's message, which only prints the costs, is left out.
pub mod Validation
pub mod Choose
pub mod Costs
pub mod Route
pub mod Assign
pub mod Proven
pub mod Local
pub mod Cloud
pub mod Built
pub mod Accepted
pub mod Samples
mod Examples
use leon_ai_assistant.Base.{ℕ, Bool, String, List, Option}

pub data RouteName : Type 0 where
  cheap balanced premium local_gpu : RouteName

pub data Runtime : Type 0 where
  api on_local_gpu api_fallback : Runtime

-- A model of `cloud_models`; an estimate that is missing or not a number is none.
pub record CloudModel : Type 0 where
  pub provider : String
  pub model : String
  pub reasoning_effort : String
  pub relative_cost : String
  pub estimated_min : Option ℕ
  pub estimated_max : Option ℕ

pub record CostPolicy : Type 0 where
  pub currency : Option String
  pub basis : Option String
  pub warning_threshold : Option ℕ

-- One configured check: the evidence is the keys whose value is there.
pub record CheckConfig : Type 0 where
  pub id : String
  pub status : String
  pub summary : String
  pub evidence : List String

-- The `local_gpu` part of the policy; no latency limit is one that is missing or not a number.
pub record LocalGpu : Type 0 where
  pub enabled : Bool
  pub selected_backend : String
  pub selected_model : String
  pub checks : List CheckConfig
  pub max_latency_ms : Option ℕ

-- config/model-routing.json
pub record RoutingPolicy : Type 0 where
  pub cheap_model : CloudModel
  pub balanced_model : CloudModel
  pub premium_model : CloudModel
  pub costs : CostPolicy
  pub local : LocalGpu

-- The latency argument, as `int(float(…))` reads it.
pub data Latency : Type 0 where
  not_given not_a_number negative : Latency
  measured : ℕ → Latency

-- The keyword arguments of `choose_route`.
pub record Query : Type 0 where
  pub task_type : String
  pub complexity : String
  pub risk : String
  pub budget_mode : String
  pub privacy : String
  pub local_gpu_ready : Bool
  pub local_route_status : String
  pub local_latency : Latency

pub record Warning : Type 0 where
  pub required : Bool
  pub severity : String
  pub reason : String

pub record Fallback : Type 0 where
  pub to_route : RouteName
  pub reason : String
  pub local_route_status : String
  pub local_latency_ms : Option ℕ
  pub max_latency_ms : ℕ

pub record RouteDecision : Type 0 where
  pub label : String
  pub selected_runtime : Runtime
  pub primary_route : RouteName
  pub final_route : RouteName
  pub reason : String
  pub fallback_active : Bool
  pub local_route_allowed : Bool
  pub local_attempted : Bool

pub record Diagnostics : Type 0 where
  pub considered : Bool
  pub selected : Bool
  pub route_allowed : Bool
  pub fallback_active : Bool
  pub local_route_status : String
  pub local_latency_ms : Option ℕ
  pub max_latency_ms : ℕ
  pub reason : String

-- What `choose_route` returns.
pub record Choice : Type 0 where
  pub provider : String
  pub route : RouteName
  pub model : String
  pub reasoning_effort : String
  pub reason : String
  pub user_visible_reason : String
  pub approval_required : Bool
  pub relative_cost : String
  pub currency : String
  pub estimated_min : ℕ
  pub estimated_max : ℕ
  pub basis : String
  pub cost_warning : Warning
  pub selected_runtime : Runtime
  pub fallback : Option Fallback
  pub route_decision : RouteDecision
  pub diagnostics : Option Diagnostics
