-- ===== src/Routing/Local.antt =====
-- src/leon_control_plane/model_policy.py: when a task runs on the local GPU.
use leon_ai_assistant.Base.{
  ℕ, ◌≤◌, ◌≡◌, refl, ◌↔◌, inl, inr, Bool, true, false, String, Option, none, some, arith,
  Bool-cases, Option-cases,
}
use leon_ai_assistant.Base.Text.{one_of, strip, lower}
use leon_ai_assistant.Routing.{
  Latency, not_given, not_a_number, negative, measured, RoutingPolicy, Query, Choice, on_local_gpu,
}
use leon_ai_assistant.Routing.Validation.{GpuPolicy, normalize_local_gpu_policy}
use leon_ai_assistant.Routing.Choose.{is_high, coarse_risk, local_failure_statuses, asked, pick}
use leon_ai_assistant.Routing.Costs.{max_latency, normalize_latency_ms, exceeds, fallback_reason}
use leon_ai_assistant.Routing.Route.{
  build_local_gpu_route, apply_api_fallback, build_route, build_cloud_route, is_private,
  needs_approval, may_run_locally, skip_reason, attempted, choose_route,
}
use leon_ai_assistant.Routing.Proven.{Validated, route_allowed-Validated, Validated-route_allowed}

-- A latency that was measured is within the limit.
abbrev pub Within : Latency → ℕ → Type 0
Within (measured n) limit = n ≤ limit
Within _ limit = Unit {0}

Within-fast :
    (l : Latency) (limit : ℕ) → Within l limit → exceeds (normalize_latency_ms l) limit ≡ false
unfolding normalize_latency_ms
Within-fast not_given limit w = refl
Within-fast not_a_number limit w = refl
Within-fast negative limit w = refl
Within-fast (measured n) limit w = ground (arith, w)

fast-Within :
    (l : Latency) (limit : ℕ) → exceeds (normalize_latency_ms l) limit ≡ false → Within l limit
unfolding normalize_latency_ms
fast-Within not_given limit h = tt
fast-Within not_a_number limit h = tt
fast-Within negative limit h = tt
fast-Within (measured n) limit h = ground (arith, h)

module _ (print : ℕ → String) (p : RoutingPolicy) (q : Query) where
  abbrev gpu : GpuPolicy
  gpu = normalize_local_gpu_policy p.local

  abbrev approval : Bool
  approval = needs_approval (pick (asked q)).route (asked q).task_type

  abbrev latency : Option ℕ
  latency = normalize_latency_ms q.local_latency

  abbrev failure : Option String
  failure = fallback_reason print q.local_route_status latency (max_latency p.local)

  -- The three ways out of `choose_route`.
  pub data Chosen (c : Choice) : Type 0 where
    runs_locally :
        may_run_locally q.local_gpu_ready gpu (asked q) ≡ true
        → failure ≡ none
        → c ≡ build_local_gpu_route gpu q.local_route_status latency (max_latency p.local)
        → Chosen c
    falls_back :
        (why : String)
        → may_run_locally q.local_gpu_ready gpu (asked q) ≡ true
        → failure ≡ some why
        → c
          ≡ apply_api_fallback
              (build_route p (pick (asked q)).route (pick (asked q)).reason approval)
              why
              gpu
              q.local_route_status
              latency
              (max_latency p.local)
        → Chosen c
    stays_in_cloud :
        may_run_locally q.local_gpu_ready gpu (asked q) ≡ false
        → c
          ≡ build_cloud_route p
              (pick (asked q)).route
              (pick (asked q)).reason
              approval
              gpu
              q.local_gpu_ready
              (skip_reason q.local_gpu_ready gpu (asked q))
        → Chosen c

  pub choose-Chosen : Chosen (choose_route print p q)
  unfolding choose_route attempted
  choose-Chosen = elim (Bool-cases (may_run_locally q.local_gpu_ready gpu (asked q))) [
    | inl e ↦ elim (Option-cases failure) [
      | inl n ↦ runs_locally e n (ground (arith, e, n))
      | inr (why, n) ↦ falls_back why e n (ground (arith, e, n))
    ]
    | inr e ↦ stays_in_cloud e (ground (arith, e))
  ]

  -- What the router asks of a task for the local GPU, and of the telemetry of that GPU.
  pub record FitsLocally : Type 0 where
    pub ready : q.local_gpu_ready ≡ true
    pub validated : Validated p.local
    pub private : is_private (asked q).privacy ≡ true
    pub careful : is_high (coarse_risk q.risk) ≡ false
    pub healthy : one_of (lower (strip q.local_route_status)) local_failure_statuses ≡ false
    pub fast : Within q.local_latency (max_latency p.local)

  fits : may_run_locally q.local_gpu_ready gpu (asked q) ≡ true → failure ≡ none → FitsLocally
  unfolding may_run_locally asked fallback_reason
  fits e n = record {
    ready = ground (arith, e);
    validated = route_allowed-Validated p.local (ground (arith, e));
    private = ground (arith, e);
    careful = ground (arith, e);
    healthy = ground (arith, n);
    fast = fast-Within q.local_latency (max_latency p.local) (ground (arith, n));
  }

  fits-may_run : FitsLocally → may_run_locally q.local_gpu_ready gpu (asked q) ≡ true
  unfolding may_run_locally asked
  fits-may_run f =
      ground (arith, f.ready, Validated-route_allowed p.local f.validated, f.private, f.careful)

  fits-failure : FitsLocally → failure ≡ none
  unfolding fallback_reason
  fits-failure f =
      ground (arith, f.healthy, Within-fast q.local_latency (max_latency p.local) f.fast)

  Chosen-fits : (c : Choice) → Chosen c → c.selected_runtime ≡ on_local_gpu → FitsLocally
  unfolding apply_api_fallback build_cloud_route build_route
  Chosen-fits c (runs_locally e n r) h = fits e n
  Chosen-fits c (falls_back why e n r) h = absurd (ground (arith, r, h))
  Chosen-fits c (stays_in_cloud e r) h = absurd (ground (arith, r, h))

  fits-Chosen : (c : Choice) → Chosen c → FitsLocally → c.selected_runtime ≡ on_local_gpu
  unfolding build_local_gpu_route
  fits-Chosen c (runs_locally e n r) f = ground (arith, r)
  fits-Chosen c (falls_back why e n r) f = absurd (cc (n, fits-failure f))
  fits-Chosen c (stays_in_cloud e r) f = absurd (cc (e, fits-may_run f))

  -- `choose_route` selects the local GPU exactly when it was requested, its validation gate is passed with
  -- evidence for every required check, the task is private or sensitive and not high-risk, and the
  -- telemetry reports neither a failure nor a latency above the limit.
  pub local_runtime_iff : ((choose_route print p q).selected_runtime ≡ on_local_gpu) ↔ FitsLocally
  local_runtime_iff = (
    Chosen-fits (choose_route print p q) choose-Chosen,
    fits-Chosen (choose_route print p q) choose-Chosen,
  )
