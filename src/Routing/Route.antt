-- ===== src/Routing/Route.antt =====
-- src/leon_control_plane/model_policy.py: `choose_route` and the routes that it builds.
use leon_ai_assistant.Base.{
  ℕ, Bool, true, false, ◌&&◌, not, String, ◌∷◌, [], Option, none, some, str_eq, if◌then◌else◌,
}
use Prim.Native.String.{◌++◌}
use leon_ai_assistant.Base.Text.{one_of}
use leon_ai_assistant.Routing.{
  RouteName, local_gpu, api, on_local_gpu, api_fallback, RoutingPolicy, Query, Diagnostics, Choice,
}
use leon_ai_assistant.Routing.Validation.{GpuPolicy, normalize_local_gpu_policy}
use leon_ai_assistant.Routing.Choose.{
  is_high, is_premium, approval_task_types, Asked, asked, Picked, pick,
}
use leon_ai_assistant.Routing.Costs.{
  cloud_model, route_cost_profile, cost_warning, route_decision, max_latency, normalize_latency_ms,
  fallback_reason,
}
use leon_ai_assistant.Runs.{or_default}

unfoldable pub build_route : RoutingPolicy → RouteName → String → Bool → Choice
unfolding route_cost_profile cost_warning route_decision
build_route p route reason approval_required =
    let c = route_cost_profile p route in
    record {
      provider = (cloud_model p route).provider;
      route = route;
      model = (cloud_model p route).model;
      reasoning_effort = (cloud_model p route).reasoning_effort;
      reason = reason;
      user_visible_reason = reason;
      approval_required = approval_required;
      relative_cost = c.relative_cost;
      currency = c.currency;
      estimated_min = c.estimated_min;
      estimated_max = c.estimated_max;
      basis = c.basis;
      cost_warning = cost_warning route reason c;
      selected_runtime = api;
      fallback = none;
      route_decision = route_decision api route route reason false false false;
      diagnostics = none;
    }

abbrev skipped : GpuPolicy → ℕ → String → Diagnostics
skipped g limit reason = record {
  considered = false;
  selected = false;
  route_allowed = g.route_allowed;
  fallback_active = false;
  local_route_status = "not_attempted";
  local_latency_ms = none;
  max_latency_ms = limit;
  reason = reason;
}

abbrev or_requested : Option String → String
or_requested none = "Local GPU was requested but API routing was selected for this task."
or_requested (some reason) = reason

unfoldable pub build_cloud_route :
    RoutingPolicy → RouteName → String → Bool → GpuPolicy → Bool → Option String → Choice
unfolding build_route
build_cloud_route p route reason approval_required g requested skip =
    let output = build_route p route reason approval_required in
    if requested
    then record output {
      diagnostics = some (skipped g (max_latency p.local) (or_requested skip));
      route_decision =
          route_decision api local_gpu route (or_requested skip) false g.route_allowed false;
    }
    else output

abbrev local_reason : String
local_reason =
    "Private/sensitive low-to-medium risk task with enabled and validated local GPU route."

unfoldable pub build_local_gpu_route : GpuPolicy → String → Option ℕ → ℕ → Choice
unfolding route_decision
build_local_gpu_route g status latency limit = record {
  provider = "local";
  route = local_gpu;
  model = or_default g.selected_model "local-policy-selected";
  reasoning_effort = "n/a";
  reason = local_reason;
  user_visible_reason = local_reason;
  approval_required = false;
  relative_cost = "local_resource";
  currency = "USD";
  estimated_min = 0;
  estimated_max = 0;
  basis =
      "Local GPU route has no provider-call estimate; benchmark, quality, and resource cost validation are recorded in local_gpu_diagnostics.";
  cost_warning = record { required = false; severity = "none"; reason = local_reason };
  selected_runtime = on_local_gpu;
  fallback = none;
  route_decision =
      route_decision on_local_gpu local_gpu local_gpu local_reason false true
        (not (str_eq status ""));
  diagnostics = some (record {
    considered = true;
    selected = true;
    route_allowed = g.route_allowed;
    fallback_active = false;
    local_route_status = or_default status "eligible";
    local_latency_ms = latency;
    max_latency_ms = limit;
    reason = "Local GPU validation passed and runtime telemetry stayed within fallback limits.";
  });
}

unfoldable pub apply_api_fallback : Choice → String → GpuPolicy → String → Option ℕ → ℕ → Choice
unfolding route_decision
apply_api_fallback output why g status latency limit = record output {
  selected_runtime = api_fallback;
  fallback = some (record {
    to_route = output.route;
    reason = why;
    local_route_status = or_default status "unknown";
    local_latency_ms = latency;
    max_latency_ms = limit;
  });
  route_decision = route_decision api_fallback local_gpu output.route why true true true;
  user_visible_reason = why ++ " API route selected: " ++ output.reason;
  diagnostics = some (record {
    considered = true;
    selected = false;
    route_allowed = g.route_allowed;
    fallback_active = true;
    local_route_status = or_default status "unknown";
    local_latency_ms = latency;
    max_latency_ms = limit;
    reason = why;
  });
}

abbrev pub is_private : String → Bool
is_private privacy = one_of privacy ("private" ∷ "sensitive" ∷ [])

unfoldable pub needs_approval : RouteName → String → Bool
needs_approval route task_type = is_premium route && one_of task_type approval_task_types

-- `local_gpu_ready and route_allowed and privacy in {…} and risk != "high"`
unfoldable pub may_run_locally : Bool → GpuPolicy → Asked → Bool
may_run_locally ready g a = ready && g.route_allowed && is_private a.privacy && not (is_high a.risk)

unfoldable pub skip_reason : Bool → GpuPolicy → Asked → Option String
skip_reason ready g a =
    if not ready
    then none
    else if not g.route_allowed
    then some "Local GPU was requested but did not pass the validation gate."
    else if not (is_private a.privacy)
    then some "Task privacy does not require local GPU; API route selected for speed and quality."
    else if is_high a.risk
    then some "High-risk task is kept on the stronger reviewed API route instead of local GPU."
    else none

-- The end of a local attempt: the local route, or the cloud route with the reason of the fallback.
unfoldable pub attempted :
    RoutingPolicy → GpuPolicy → Picked → Bool → String → Option ℕ → ℕ → Option String → Choice
unfolding build_local_gpu_route build_route apply_api_fallback
attempted p g x approval status latency limit none = build_local_gpu_route g status latency limit
attempted p g x approval status latency limit (some why) =
    apply_api_fallback (build_route p x.route x.reason approval) why g status latency limit

unfoldable pub choose_route : (ℕ → String) → RoutingPolicy → Query → Choice
choose_route print p q =
    let a = asked q in
    let g = normalize_local_gpu_policy p.local in
    let x = pick a in
    let approval = needs_approval x.route a.task_type in
    let latency = normalize_latency_ms q.local_latency in
    let limit = max_latency p.local in
    if may_run_locally q.local_gpu_ready g a
    then attempted p g x approval q.local_route_status latency limit
        (fallback_reason print q.local_route_status latency limit)
    else build_cloud_route p x.route x.reason approval g q.local_gpu_ready
        (skip_reason q.local_gpu_ready g a)
