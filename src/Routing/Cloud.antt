-- ===== src/Routing/Cloud.antt =====
-- src/leon_control_plane/model_policy.py: what the router promises of the choice that it returns.
use leon_ai_assistant.Base.{
  ℕ, ◌≡◌, refl, inl, inr, Bool, true, false, ◌&&◌, ◌||◌, not, String, Option, str_eq, arith,
  Bool-cases, is_some,
}
use leon_ai_assistant.Base.Text.{one_of}
use leon_ai_assistant.Routing.{
  RouteName, premium, local_gpu, RoutingPolicy, Query, Choice, Runtime, api, on_local_gpu,
}
use leon_ai_assistant.Routing.Choose.{
  is_high, coarse_risk, approval_task_types, premium_task_types, Asked, asked, pick, start,
  for_tools, for_value, for_economy, for_quality,
}
use leon_ai_assistant.Routing.Costs.{cost_warning, route_decision}
use leon_ai_assistant.Routing.Validation.{GpuPolicy, normalize_local_gpu_policy}
use leon_ai_assistant.Routing.Route.{
  build_local_gpu_route, apply_api_fallback, build_route, build_cloud_route, needs_approval,
  may_run_locally, skip_reason, choose_route,
}
use leon_ai_assistant.Routing.Local.{
  Chosen, runs_locally, falls_back, stays_in_cloud, choose-Chosen,
}

-- The last two adjustments leave a premium route alone.
pick_premium :
    (a : Asked)
    → (one_of a.task_type premium_task_types || is_high a.risk || str_eq a.complexity "high") ≡ true
    → (pick a).route ≡ premium
unfolding pick for_quality for_economy for_value
pick_premium a h = ground (arith, h)

approval-premium :
    (s : String) → one_of s approval_task_types ≡ true → one_of s premium_task_types ≡ true
unfolding approval_task_types premium_task_types one_of
approval-premium s h = ground (arith, h)

abbrev pub is_local_route : RouteName → Bool
is_local_route local_gpu = true
is_local_route _ = false

abbrev is_local_runtime : Runtime → Bool
is_local_runtime on_local_gpu = true
is_local_runtime _ = false

-- The parts of a choice agree.
pub record Agrees (ready : Bool) (c : Choice) : Type 0 where
  pub final : c.route_decision.final_route ≡ c.route
  pub runtime : c.route_decision.selected_runtime ≡ c.selected_runtime
  pub active : c.route_decision.fallback_active ≡ is_some c.fallback
  pub local : is_local_route c.route ≡ is_local_runtime c.selected_runtime
  pub reported : is_some c.diagnostics ≡ ready
  pub free : c.route ≡ local_gpu → c.estimated_max ≡ 0
  pub warned : c.route ≡ premium → c.cost_warning.required ≡ true

pick-not_local : (a : Asked) → is_local_route (pick a).route ≡ false
unfolding pick start for_tools for_value for_economy for_quality
pick-not_local a = ground arith

needs_approval-eq :
    (a : Asked)
    → needs_approval (pick a).route a.task_type
      ≡ (not (is_local_route (pick a).route) && one_of a.task_type approval_task_types)
unfolding needs_approval
needs_approval-eq a = elim (Bool-cases (one_of a.task_type approval_task_types)) [
  | inl e ↦
      let k = pick_premium a (ground (arith, approval-premium a.task_type e)) in
      ground (arith, e, k)
  | inr e ↦ ground (arith, e)
]

cloud-Agrees :
    (p : RoutingPolicy) (route : RouteName) (reason : String) (approval : Bool) (g : GpuPolicy)
    (ready : Bool) (skip : Option String)
    → is_local_route route ≡ false
    → Agrees ready (build_cloud_route p route reason approval g ready skip)
unfolding build_cloud_route build_route cost_warning route_decision
cloud-Agrees p route reason approval g true skip n = record {
  final = refl;
  runtime = refl;
  active = refl;
  local = n;
  reported = refl;
  free = λ h. absurd (ground (arith, h, n));
  warned = λ h. ground (arith, h);
}
cloud-Agrees p route reason approval g false skip n = record {
  final = refl;
  runtime = refl;
  active = refl;
  local = n;
  reported = refl;
  free = λ h. absurd (ground (arith, h, n));
  warned = λ h. ground (arith, h);
}

module _ (print : ℕ → String) (p : RoutingPolicy) (q : Query) where
  high_risk-Chosen :
      (c : Choice)
      → Chosen print p q c
      → is_high (coarse_risk q.risk) ≡ true
      → (c.route ≡ premium)
        × (c.selected_runtime ≡ api)
        × (c.cost_warning.required ≡ true)
        × (c.model ≡ p.premium_model.model)
  unfolding may_run_locally asked build_cloud_route build_route cost_warning
  high_risk-Chosen c (runs_locally e n r) h = absurd (ground (arith, e, h))
  high_risk-Chosen c (falls_back why e n r) h = absurd (ground (arith, e, h))
  high_risk-Chosen c (stays_in_cloud e r) h =
      let k : (pick (asked q)).route ≡ premium = pick_premium (asked q) (ground (arith, h)) in
      (ground (arith, r, k), ground (arith, r), ground (arith, r, k), ground (arith, r, k))

  -- For a high-risk task `choose_route` returns the premium model over the API, with a cost warning, and
  -- never the local GPU or a cheaper model. A caller may still replace what it returns, as the proposal
  -- builder does for the runner local_ollama.
  pub high_risk_premium :
      is_high (coarse_risk q.risk) ≡ true
      → ((choose_route print p q).route ≡ premium)
        × ((choose_route print p q).selected_runtime ≡ api)
        × ((choose_route print p q).cost_warning.required ≡ true)
        × ((choose_route print p q).model ≡ p.premium_model.model)
  high_risk_premium = high_risk-Chosen (choose_route print p q) (choose-Chosen print p q)

  Chosen-Agrees : (c : Choice) → Chosen print p q c → Agrees q.local_gpu_ready c
  unfolding may_run_locally build_cloud_route build_route cost_warning build_local_gpu_route
      apply_api_fallback route_decision
  Chosen-Agrees c (runs_locally e n r) = rw r (record {
    final = refl;
    runtime = refl;
    active = refl;
    local = refl;
    reported = ground (arith, e);
    free = λ h. refl;
    warned = λ h. absurd (cc h);
  })
  Chosen-Agrees c (falls_back why e n r) = rw r (record {
    final = refl;
    runtime = refl;
    active = refl;
    local = pick-not_local (asked q);
    reported = ground (arith, e);
    free = λ h. absurd (ground (arith, h, pick-not_local (asked q)));
    warned = λ h. ground (arith, h);
  })
  Chosen-Agrees c (stays_in_cloud e r) = rw r (
      cloud-Agrees p (pick (asked q)).route (pick (asked q)).reason
        (needs_approval (pick (asked q)).route (asked q).task_type)
        (normalize_local_gpu_policy p.local) q.local_gpu_ready
        (skip_reason q.local_gpu_ready (normalize_local_gpu_policy p.local) (asked q))
        (pick-not_local (asked q)))

  -- Every choice is consistent: the decision that is shown names the route and the runtime that are taken,
  -- a fallback is reported exactly when it is active, the local route and the local runtime come together,
  -- diagnostics are given exactly when the local GPU was requested, the local route costs nothing, and the
  -- premium route carries a cost warning.
  pub choose_route-Agrees : Agrees q.local_gpu_ready (choose_route print p q)
  choose_route-Agrees = Chosen-Agrees (choose_route print p q) (choose-Chosen print p q)

  approval-Chosen :
      (c : Choice)
      → Chosen print p q c
      → c.approval_required
        ≡ (not (is_local_route c.route) && one_of (asked q).task_type approval_task_types)
  unfolding build_cloud_route build_route build_local_gpu_route apply_api_fallback needs_approval
  approval-Chosen c (runs_locally e n r) = rw r refl
  approval-Chosen c (falls_back why e n r) = rw r (needs_approval-eq (asked q))
  approval-Chosen c (stays_in_cloud e r) = ground (arith, r, needs_approval-eq (asked q))

  -- A choice asks for an approval exactly when the task is a security review or a high-value or sensitive
  -- decision that leaves for a cloud model.
  choose_route-approval : (choose_route print p q).approval_required ≡ (
      not (is_local_route (choose_route print p q).route)
      && one_of (asked q).task_type approval_task_types)
  choose_route-approval = approval-Chosen (choose_route print p q) (choose-Chosen print p q)
