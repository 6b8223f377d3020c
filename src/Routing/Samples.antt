-- ===== src/Routing/Samples.antt =====
-- The configured routing policy, a private task for the local GPU, and a task to assign.
use leon_ai_assistant.Base.{ℕ, String, true, false, [], ◌∷◌, none, some}
use leon_ai_assistant.Routing.{CloudModel, CheckConfig, RoutingPolicy, Query, measured, not_given}
use leon_ai_assistant.Routing.Assign.{TaskFacts, AssignArgs}

abbrev pub print : ℕ → String
print n = "n"

abbrev cloud : String → String → CloudModel
cloud model effort = record {
  provider = "openai";
  model = model;
  reasoning_effort = effort;
  relative_cost = "";
  estimated_min = none;
  estimated_max = none;
}

abbrev passed : String → String → String → String → CheckConfig
passed id a b c = record { id = id; status = "passed"; summary = ""; evidence = a ∷ b ∷ c ∷ [] }

abbrev pub policy : RoutingPolicy
policy = record {
  cheap_model = cloud "gpt-5.6-luna" "low";
  balanced_model = cloud "gpt-5.6-terra" "medium";
  premium_model = cloud "gpt-5.6-sol" "high";
  costs = record { currency = some "USD"; basis = none; warning_threshold = some 800 };
  local = record {
    enabled = true;
    selected_backend = "ollama";
    selected_model = "qwen2.5-coder:14b";
    checks =
        passed "hardware_detection" "gpu_detected" "device_name" "vram_mb"
        ∷ passed "driver_cuda_readiness" "driver_version" "cuda_available" "backend_healthcheck"
        ∷ passed "benchmark_results" "tokens_per_second" "latency_ms" "test_model"
        ∷ passed "quality_comparison" "eval_set" "cloud_baseline_model" "quality_delta"
        ∷ passed "cost_comparison" "provider_cost_baseline" "local_resource_cost" "worth_routing"
        ∷ [];
    max_latency_ms = some 3500;
  };
}

abbrev pub private_query : Query
private_query = record {
  task_type = "documentation";
  complexity = "low";
  risk = "low";
  budget_mode = "balanced";
  privacy = "private";
  local_gpu_ready = true;
  local_route_status = "";
  local_latency = measured 900;
}

abbrev pub risky_query : Query
risky_query = record private_query { risk = "R4"; task_type = "security_review" }

abbrev pub facts : TaskFacts
facts = record {
  id = 1;
  title = "Summarize the notes";
  goal = "A short summary";
  owner = "";
  acceptance_criteria = "";
  acceptance = "";
  risk_level = "low";
  risk = "";
  priority = "P2";
}

abbrev pub args : AssignArgs
args = record {
  agent_role = "Mock Builder Agent";
  runner_kind = "local_ollama";
  task_type = "";
  complexity = "";
  privacy = "normal";
  budget_mode = "balanced";
  local_gpu_ready = false;
  local_route_status = "";
  local_latency = not_given;
  local_model_name = "qwen2.5-coder:14b";
  allowed_actions = [];
  forbidden_actions = "spend_money" ∷ [];
}
