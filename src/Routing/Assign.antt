-- ===== src/Routing/Assign.antt =====
-- src/leon_control_plane/agent_assignment.py: the proposal that is built for one task. The task packet,
-- which only describes the task to the agent, is left out.
use leon_ai_assistant.Base.{
  ℕ, Bool, false, ◌||◌, String, List, ◌∷◌, [], ◌++◌, some, str_eq, if◌then◌else◌,
}
use Prim.Native.String.{◌++◌ as ◌<>◌}
use leon_ai_assistant.Base.Text.{one_of, contains_any, lower}
use leon_ai_assistant.Approvals.Outcome.{Outcome, did, or_refuse, ◌>>=◌, bad_runner, policy_denied}
use leon_ai_assistant.Risk.{no_metadata}
use leon_ai_assistant.Risk.Policy.{Call, Verdict, action_call, evaluate_action_policy}
use leon_ai_assistant.Routing.{
  RouteName, cheap, balanced, premium, local_gpu, RoutingPolicy, Latency, Query, Choice,
}
use leon_ai_assistant.Routing.Route.{choose_route}
use leon_ai_assistant.Runs.{
  Runner, local_mock, local_ollama, parse_runner, Route, Assignment, or_default,
}
use leon_ai_assistant.Runs.Create.{is_ollama, action_of, too_risky}

-- The fields of a task that are read.
pub record TaskFacts : Type 0 where
  pub id : ℕ
  pub title : String
  pub goal : String
  pub owner : String
  pub acceptance_criteria : String
  pub acceptance : String
  pub risk_level : String
  pub risk : String
  pub priority : String

-- The keyword arguments of `build_agent_assignment_proposal`.
pub record AssignArgs : Type 0 where
  pub agent_role : String
  pub runner_kind : String
  pub task_type : String
  pub complexity : String
  pub privacy : String
  pub budget_mode : String
  pub local_gpu_ready : Bool
  pub local_route_status : String
  pub local_latency : Latency
  pub local_model_name : String
  pub allowed_actions : List String
  pub forbidden_actions : List String

abbrev haystack : TaskFacts → String
haystack t = lower (
    t.title <> " " <> t.goal <> " " <> t.owner <> " " <> t.acceptance_criteria <> " "
    <> t.acceptance)

-- The ladder of texts that tell the type of a task.
unfoldable pub type_of_text : String → String
type_of_text s =
    if contains_any s (
      "rabobank" ∷ "paypal" ∷ "transactie" ∷ "saldo" ∷ "uitgaven" ∷ "investering" ∷ "investeren"
      ∷ "investment" ∷ "beleggen" ∷ "crypto" ∷ "marktanalyse" ∷ [])
    then "financial_analysis"
    else if contains_any s (
        "server manager" ∷ "container" ∷ "docker" ∷ "podman" ∷ "ssh" ∷ "server update"
        ∷ "server error" ∷ "server log" ∷ [])
    then "server_operations"
    else if contains_any s
        ("3d model" ∷ "3d reference" ∷ "image-to-3d" ∷ "foto naar 3d" ∷ "mesh" ∷ [])
    then "model_reference"
    else if contains_any s
        ("3d printer" ∷ "fluidd" ∷ "moonraker" ∷ "klipper" ∷ "print camera" ∷ "g-code" ∷ [])
    then "printer_monitoring"
    else if contains_any s (
        "marktplaats" ∷ "vinted" ∷ "ticketswap" ∷ "shopper" ∷ "koop" ∷ "kopen" ∷ "aanbieding"
        ∷ "deal" ∷ "prijsvergelijk" ∷ "product zoeken" ∷ [])
    then "shopping_research"
    else if contains_any s ("research" ∷ "onderzoek" ∷ "bronnen" ∷ "vergelijk" ∷ [])
    then "routine_research"
    else if contains_any s
        ("debug" ∷ "fix" ∷ "test" ∷ "api" ∷ "tool" ∷ "script" ∷ "code" ∷ "bouw" ∷ [])
    then "tool_making"
    else if contains_any s
        ("architecture" ∷ "architectuur" ∷ "security" ∷ "approval" ∷ "policy" ∷ "gpu" ∷ [])
    then "architecture"
    else "documentation"

unfoldable pub infer_task_type : TaskFacts → String → String
unfolding type_of_text
infer_task_type t requested = or_default requested (type_of_text (haystack t))

unfoldable pub infer_complexity : TaskFacts → String → String → String
infer_complexity t task_type requested = or_default requested (
    if str_eq (or_default t.risk_level t.risk) "high"
    then "high"
    else if str_eq t.priority "P0" || one_of task_type ("tool_making" ∷ "architecture" ∷ [])
    then "medium"
    else "low")

abbrev default_role : String
default_role = "Mock Builder Agent"

unfoldable pub automatic_role : String → String → String
automatic_role task_type agent_role =
    if str_eq task_type "shopping_research"
    then "Shopper"
    else if str_eq task_type "financial_analysis"
    then "Manager"
    else if str_eq task_type "server_operations"
    then "Server Manager"
    else if str_eq task_type "model_reference"
    then "3D Model Reference Maker"
    else if str_eq task_type "printer_monitoring"
    then "3D Printer Manager"
    else agent_role

unfoldable pub default_allowed : List String
default_allowed =
    "read_task_context" ∷ "read_project_docs" ∷ "produce_plan" ∷ "produce_reviewable_result" ∷ []

-- DEFAULT_FORBIDDEN_ACTIONS, which are also the actions that every proposal forbids.
unfoldable pub required_forbidden : List String
required_forbidden =
    "read_raw_secrets" ∷ "write_env_files" ∷ "install_dependencies" ∷ "connect_external_accounts"
    ∷ "execute_shell_commands" ∷ "modify_files" ∷ "send_external_messages" ∷ "spend_money"
    ∷ "start_gpu_intensive_jobs" ∷ []

abbrev pub or_actions : List String → List String → List String
or_actions [] default = default
or_actions (x ∷ xs) default = x ∷ xs

-- The loop that appends the required actions that are not there yet.
unfoldable pub with_forbidden : List String → List String → List String
with_forbidden [] xs = xs
with_forbidden (r ∷ required) xs =
    with_forbidden required (if one_of r xs then xs else xs ++ (r ∷ []))

abbrev route_text : RouteName → String
route_text cheap = "cheap"
route_text balanced = "balanced"
route_text premium = "premium"
route_text local_gpu = "local_gpu"

unfoldable pub local_query : Runner → TaskFacts → AssignArgs → String → String → String → Query
local_query runner t args task_type complexity risk = record {
  task_type = task_type;
  complexity = complexity;
  risk = risk;
  budget_mode = args.budget_mode;
  privacy = if is_ollama runner then "private" else args.privacy;
  local_gpu_ready = is_ollama runner || args.local_gpu_ready;
  local_route_status = args.local_route_status;
  local_latency = args.local_latency;
}

unfoldable pub route_for : Runner → String → Choice → Route
route_for local_ollama model c = record {
  provider = "ollama";
  route = "local_gpu";
  model = model;
  reasoning_effort = "local";
  reason = c.reason;
  approval_required = false;
}
route_for local_mock model c = record {
  provider = c.provider;
  route = route_text c.route;
  model = c.model;
  reasoning_effort = c.reasoning_effort;
  reason = c.reason;
  approval_required = c.approval_required;
}

unfoldable pub assignment_call : Runner → List String → Call
assignment_call runner actions = record (action_call (action_of runner)) {
  requested_scope = "local_agent_task";
  metadata = record no_metadata { allowed_actions = actions };
}

-- A high-risk task is never executable by the local model.
unfoldable pub may_execute : Runner → String → Verdict → Bool
may_execute runner risk v = if too_risky runner risk then false else v.execution_allowed

module _ (print : ℕ → String) (p : RoutingPolicy) where
  unfoldable pub proposed : Runner → TaskFacts → AssignArgs → Verdict → Assignment
  unfolding local_query route_for may_execute infer_task_type infer_complexity automatic_role
  proposed runner t args verdict =
      let task_type = infer_task_type t args.task_type in
      let complexity = infer_complexity t task_type args.complexity in
      let risk = or_default (or_default t.risk_level t.risk) "medium" in
      record {
        task_id = some t.id;
        agent_role =
            if str_eq args.agent_role default_role
            then automatic_role task_type args.agent_role
            else args.agent_role;
        runner_kind = args.runner_kind;
        execution_allowed = may_execute runner risk verdict;
        external_calls_allowed = false;
        secret_values_read = false;
        task_type = task_type;
        complexity = complexity;
        risk = risk;
        privacy = if is_ollama runner then "private" else args.privacy;
        budget_mode = args.budget_mode;
        route =
            route_for runner args.local_model_name
              (choose_route print p (local_query runner t args task_type complexity risk));
        allowed_actions = or_actions args.allowed_actions default_allowed;
        forbidden_actions =
            with_forbidden required_forbidden
              (or_actions args.forbidden_actions required_forbidden);
      }

  -- The policy's ValueError for an unknown class does not occur: no class is given.
  unfoldable pub build_agent_assignment_proposal : TaskFacts → AssignArgs → Outcome Assignment
  unfolding assignment_call proposed
  build_agent_assignment_proposal t args = do
    runner ← or_refuse (parse_runner args.runner_kind) bad_runner
    verdict ←
        or_refuse
          (evaluate_action_policy
            (assignment_call runner (or_actions args.allowed_actions default_allowed)))
          policy_denied
    did (proposed runner t args verdict)
