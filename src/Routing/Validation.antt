-- ===== src/Routing/Validation.antt =====
-- src/leon_control_plane/local_gpu_validation.py: the checks that a local GPU must have passed.
use leon_ai_assistant.Base.{
  Bool, true, false, ◌&&◌, not, String, List, ◌∷◌, [], ◌++◌, any, str_eq, if◌then◌else◌,
}
use Prim.Native.String.{◌++◌ as ◌<>◌}
use leon_ai_assistant.Base.Text.{one_of, strip, lower}
use leon_ai_assistant.Routing.{LocalGpu, CheckConfig}
use leon_ai_assistant.Runs.{or_default}

pub record Required : Type 0 where
  pub id : String
  pub title : String
  pub evidence : List String

unfoldable pub required_checks : List Required
required_checks =
    record {
      id = "hardware_detection";
      title = "Hardware detection";
      evidence = "gpu_detected" ∷ "device_name" ∷ "vram_mb" ∷ [];
    }
    ∷ record {
      id = "driver_cuda_readiness";
      title = "Driver or CUDA readiness";
      evidence = "driver_version" ∷ "cuda_available" ∷ "backend_healthcheck" ∷ [];
    }
    ∷ record {
      id = "benchmark_results";
      title = "Benchmark results";
      evidence = "tokens_per_second" ∷ "latency_ms" ∷ "test_model" ∷ [];
    }
    ∷ record {
      id = "quality_comparison";
      title = "Quality comparison";
      evidence = "eval_set" ∷ "cloud_baseline_model" ∷ "quality_delta" ∷ [];
    }
    ∷ record {
      id = "cost_comparison";
      title = "Cost comparison";
      evidence = "provider_cost_baseline" ∷ "local_resource_cost" ∷ "worth_routing" ∷ [];
    }
    ∷ []

pub record Check : Type 0 where
  pub id : String
  pub title : String
  pub status : String
  pub passed : Bool
  pub summary : String
  pub missing_evidence : List String

-- The required keys without a value.
unfoldable pub missing : List String → List String → List String
missing [] given = []
missing (k ∷ keys) given =
    let rest = missing keys given in if one_of k given then rest else k ∷ rest

abbrev pub is_empty {ℓ} : {A : Type ℓ} → List A → Bool
is_empty [] = true
is_empty (x ∷ xs) = false

-- `", ".join(texts)`
unfoldable pub joined : List String → String
joined [] = ""
joined (x ∷ []) = x
joined (x ∷ (y ∷ ys)) = x <> ", " <> joined (y ∷ ys)

abbrev pub status_of : CheckConfig → String
status_of c = lower (strip (or_default c.status "not_run"))

unfoldable pub normalize_check : Required → CheckConfig → Check
unfolding missing joined
normalize_check r c =
    let gaps = missing r.evidence c.evidence in
    let incomplete = str_eq (status_of c) "passed" && not (is_empty gaps) in
    record {
      id = r.id;
      title = r.title;
      status = if incomplete then "incomplete" else status_of c;
      passed = str_eq (status_of c) "passed" && is_empty gaps;
      summary =
          if incomplete
          then "Marked passed but missing required evidence: " <> joined gaps <> "."
          else or_default c.summary "Validation check has not been run.";
      missing_evidence = gaps;
    }

abbrev pub unconfigured : String → CheckConfig
unconfigured id = record { id = id; status = ""; summary = ""; evidence = [] }

-- `configured_checks.get(id)`, or an empty mapping
unfoldable pub configured : String → List CheckConfig → CheckConfig
configured id [] = unconfigured id
configured id (c ∷ rest) = let other = configured id rest in if str_eq c.id id then c else other

unfoldable pub checks_of : LocalGpu → List Required → List Check
unfolding normalize_check configured
checks_of g [] = []
checks_of g (r ∷ rest) = normalize_check r (configured r.id g.checks) ∷ checks_of g rest

-- The ids of the checks that did not pass.
unfoldable pub failed_or_missing : List Check → List String
failed_or_missing [] = []
failed_or_missing (c ∷ rest) =
    let others = failed_or_missing rest in if c.passed then others else c.id ∷ others

-- The policy as the router reads it.
pub record GpuPolicy : Type 0 where
  pub enabled : Bool
  pub readiness_status : String
  pub selected_backend : String
  pub selected_model : String
  pub checks : List Check
  pub reasons : List String
  pub route_allowed : Bool

abbrev pub because : Bool → String → List String
because b reason = if b then reason ∷ [] else []

abbrev or_passed : List String → List String
or_passed [] =
    "Local GPU validation passed and routing may consider local models for eligible work." ∷ []
or_passed (r ∷ rest) = r ∷ rest

-- `check["status"] not in {"not_run", ""}`
abbrev pub was_run : Check → Bool
was_run c = not (one_of c.status ("not_run" ∷ "" ∷ []))

unfoldable pub normalize_local_gpu_policy : LocalGpu → GpuPolicy
unfolding required_checks checks_of failed_or_missing
normalize_local_gpu_policy g =
    let checks = checks_of g required_checks in
    let failed = failed_or_missing checks in
    let backend = strip g.selected_backend in
    let model = strip g.selected_model in
    let passed = is_empty failed in
    let allowed = g.enabled && passed && not (str_eq backend "") && not (str_eq model "") in
    record {
      enabled = g.enabled;
      readiness_status =
          if allowed
          then "validated"
          else if g.enabled && not passed && any was_run checks
          then "incomplete"
          else if passed
          then "passed"
          else "not_validated";
      selected_backend = backend;
      selected_model = model;
      checks = checks;
      reasons = or_passed (
          because (not g.enabled) "Local GPU routing is disabled by default."
          ++ because (not passed) ("Validation checks not passed: " <> joined failed <> ".")
          ++ because (str_eq backend "") "No local GPU backend selected."
          ++ because (str_eq model "") "No local GPU model selected.");
      route_allowed = allowed;
    }
