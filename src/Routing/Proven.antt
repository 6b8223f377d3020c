-- ===== src/Routing/Proven.antt =====
-- src/leon_control_plane/local_gpu_validation.py: the validation gate of a local GPU, and its required
-- checks.
use leon_ai_assistant.Base.{
  ◌≡◌, refl, inl, inr, true, false, String, List, ◌∷◌, [], str_eq, All, arith, Bool-cases,
}
use leon_ai_assistant.Base.Text.{one_of, strip}
use leon_ai_assistant.Routing.{LocalGpu}
use leon_ai_assistant.Routing.Validation.{
  Required, required_checks, missing, is_empty, status_of, normalize_check, configured, checks_of,
  failed_or_missing, normalize_local_gpu_policy,
}

-- A required check has passed, and every piece of its evidence is there.
pub record Proven (g : LocalGpu) (r : Required) : Type 0 where
  pub passed : str_eq (status_of (configured r.id g.checks)) "passed" ≡ true
  pub evidence : All (λ k. one_of k (configured r.id g.checks).evidence ≡ true) r.evidence

missing-All :
    (keys given : List String)
    → is_empty (missing keys given) ≡ true
    → All (λ k. one_of k given ≡ true) keys
unfolding missing
missing-All [] given h = tt
missing-All (k ∷ keys) given h = elim (Bool-cases (one_of k given)) [
  | inl e ↦ (e, missing-All keys given (ground (arith, e, h)))
  | inr e ↦ absurd (ground (arith, e, h))
]

All-missing :
    (keys given : List String)
    → All (λ k. one_of k given ≡ true) keys
    → is_empty (missing keys given) ≡ true
unfolding missing
All-missing [] given h = refl
All-missing (k ∷ keys) given h = ground (arith, h.0, All-missing keys given h.1)

checks-Proven :
    (g : LocalGpu) (rs : List Required)
    → is_empty (failed_or_missing (checks_of g rs)) ≡ true
    → All (Proven g) rs
unfolding failed_or_missing checks_of normalize_check
checks-Proven g [] h = tt
checks-Proven g (r ∷ rs) h =
    elim (Bool-cases (normalize_check r (configured r.id g.checks)).passed) [
      | inl e ↦ (
        record {
          passed = ground (arith, e);
          evidence = missing-All r.evidence (configured r.id g.checks).evidence (ground (arith, e));
        },
        checks-Proven g rs (ground (arith, e, h)),
      )
      | inr e ↦ absurd (ground (arith, e, h))
    ]

Proven-checks :
    (g : LocalGpu) (rs : List Required)
    → All (Proven g) rs
    → is_empty (failed_or_missing (checks_of g rs)) ≡ true
unfolding failed_or_missing checks_of normalize_check
Proven-checks g [] h = refl
Proven-checks g (r ∷ rs) h = ground (
  arith,
  h.0.passed,
  All-missing r.evidence (configured r.id g.checks).evidence h.0.evidence,
  Proven-checks g rs h.1,
)

-- The gate: enabled, every required check proven, a backend and a model named.
pub record Validated (g : LocalGpu) : Type 0 where
  pub enabled : g.enabled ≡ true
  pub proven : All (Proven g) required_checks
  pub backend : str_eq (strip g.selected_backend) "" ≡ false
  pub model : str_eq (strip g.selected_model) "" ≡ false

pub route_allowed-Validated :
    (g : LocalGpu) → (normalize_local_gpu_policy g).route_allowed ≡ true → Validated g
unfolding normalize_local_gpu_policy
route_allowed-Validated g h = record {
  enabled = ground (arith, h);
  proven = checks-Proven g required_checks (ground (arith, h));
  backend = ground (arith, h);
  model = ground (arith, h);
}

pub Validated-route_allowed :
    (g : LocalGpu) → Validated g → (normalize_local_gpu_policy g).route_allowed ≡ true
unfolding normalize_local_gpu_policy
Validated-route_allowed g v =
    ground (arith, v.enabled, Proven-checks g required_checks v.proven, v.backend, v.model)
