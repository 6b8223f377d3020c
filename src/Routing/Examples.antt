-- ===== src/Routing/Examples.antt =====
-- The theorems on routes and on built proposals at concrete tasks, and tests.
use leon_ai_assistant.Base.{
  ◌≡◌, refl, ◌↔◌, true, false, ◌&&◌, str_eq, All, [], ◌∷◌, some, none, arith,
}
use leon_ai_assistant.Base.Text.{
  one_of, strip, lower, contains, contains_any, normalized, intersects,
}
use leon_ai_assistant.Base.Rows.{find}
use leon_ai_assistant.Approvals.Outcome.{did}
use leon_ai_assistant.Routing.{on_local_gpu, premium, api}
use leon_ai_assistant.Routing.Validation.{normalize_local_gpu_policy}
use leon_ai_assistant.Routing.Choose.{coarse_risk, asked, local_failure_statuses}
use leon_ai_assistant.Routing.Costs.{max_latency, normalize_latency_ms, fallback_reason}
use leon_ai_assistant.Routing.Route.{choose_route, may_run_locally, attempted}
use leon_ai_assistant.Routing.Local.{FitsLocally, local_runtime_iff}
use leon_ai_assistant.Routing.Cloud.{Agrees, high_risk_premium, choose_route-Agrees}
use leon_ai_assistant.Routing.Assign.{
  build_agent_assignment_proposal, required_forbidden, proposed, assignment_call, with_forbidden,
  default_allowed,
}
use leon_ai_assistant.Routing.Accepted.{
  built_proposal_bounded, built_proposal_accepted, executable_proposal_starts, high_risk,
}
use leon_ai_assistant.Routing.Samples.{print, policy, private_query, risky_query, facts, args}
use leon_ai_assistant.Approvals.{task_of}
use leon_ai_assistant.Risk.{
  infer_risk_class, classify, request, names_any, has_effects, hard_block_marker,
  hard_block_actions, r5_actions, r4_actions, r3_actions, r2_actions, r1_actions, coarse_risk_level,
}
use leon_ai_assistant.Risk.Policy.{
  evaluate_action_policy, selected_class, verdict as judged, is_hard_blocked, decide,
  state_of_approval, approval_present,
}
use leon_ai_assistant.Runs.{
  local_ollama, Assignment, Desk, RollbackRow, parse_runner, redact_assignment, proposal_of, run_of,
}
use leon_ai_assistant.Runs.Create.{run_rollback, too_risky}
use leon_ai_assistant.Runs.Rollback.{insert_rollback_record}
use leon_ai_assistant.Runs.Assign.{
  fresh_proposal, create_agent_assignment_proposal, create_run_of, run_args,
}
use leon_ai_assistant.Runs.Samples.{tools, desk, task, verdict}

runs_on_gpu : (choose_route print policy private_query).selected_runtime ≡ on_local_gpu
unfolding choose_route may_run_locally normalize_local_gpu_policy lower strip one_of asked attempted
    fallback_reason local_failure_statuses normalize_latency_ms max_latency
runs_on_gpu = refl

local_runtime_iff_example :
    ((choose_route print policy private_query).selected_runtime ≡ on_local_gpu)
    ↔ FitsLocally print policy private_query
local_runtime_iff_example = local_runtime_iff print policy private_query

high_risk_premium_example :
    ((choose_route print policy risky_query).route ≡ premium)
    × ((choose_route print policy risky_query).selected_runtime ≡ api)
    × ((choose_route print policy risky_query).cost_warning.required ≡ true)
    × ((choose_route print policy risky_query).model ≡ "gpt-5.6-sol")
unfolding coarse_risk one_of lower strip
high_risk_premium_example = high_risk_premium print policy risky_query refl

choose_route-Agrees_example : Agrees true (choose_route print policy private_query)
choose_route-Agrees_example = choose_route-Agrees print policy private_query

abbrev built : Assignment
built = proposed print policy local_ollama facts args verdict

gate_ok : evaluate_action_policy (assignment_call local_ollama default_allowed) ≡ some verdict
unfolding evaluate_action_policy assignment_call default_allowed selected_class judged
    is_hard_blocked hard_block_marker contains_any contains hard_block_actions normalized lower
    strip infer_risk_class classify request names_any has_effects one_of r5_actions r4_actions
    r3_actions r2_actions r1_actions intersects decide state_of_approval coarse_risk_level
    approval_present
gate_ok = refl

built_ok : build_agent_assignment_proposal print policy facts args ≡ did built
unfolding build_agent_assignment_proposal parse_runner
built_ok = ground (arith, gate_ok)

built_proposal_bounded_example :
    (built.external_calls_allowed ≡ false)
    × (built.secret_values_read ≡ false)
    × All (λ k. one_of k built.forbidden_actions ≡ true) required_forbidden
    × ((built.execution_allowed
          && str_eq built.runner_kind "local_ollama"
          && one_of (lower built.risk) high_risk)
        ≡ false)
built_proposal_bounded_example = built_proposal_bounded print policy facts args built built_ok

built_plain : redact_assignment tools built ≡ built
unfolding redact_assignment proposed default_allowed with_forbidden required_forbidden choose_route
    one_of
built_plain = refl

task_found : task_of 1 desk.store ≡ some task
unfolding find
task_found = refl

no_proposal : proposal_of 9 desk ≡ none
unfolding find
no_proposal = refl

no_run : run_of 9 desk ≡ none
unfolding find
no_run = refl

abbrev rollback_row : RollbackRow
rollback_row = run_rollback tools 5 9 (run_args 1 local_ollama built)

rollback_kept : insert_rollback_record tools rollback_row [] ≡ did (rollback_row ∷ [])
unfolding insert_rollback_record one_of strip run_args
rollback_kept = refl

built_proposal_accepted_example :
    (d : Desk) × (create_agent_assignment_proposal tools 30 9 built desk ≡ did d)
    × (proposal_of 9 d ≡ some (fresh_proposal 30 9 1 built))
built_proposal_accepted_example =
    built_proposal_accepted print policy facts args built built_ok tools 30 9 desk task built_plain
      task_found no_proposal

built_executable : built.execution_allowed ≡ true
unfolding proposed too_risky one_of lower
built_executable = refl

built_kind : parse_runner built.runner_kind ≡ some local_ollama
unfolding proposed parse_runner
built_kind = refl

executable_proposal_starts_example :
    (d : Desk) × (create_run_of tools 30 9 5 local_ollama built desk ≡ did d)
executable_proposal_starts_example =
    executable_proposal_starts print policy facts args built built_ok tools 30 9 5 desk task
      local_ollama (rollback_row ∷ []) built_plain built_kind built_executable task_found no_run
      rollback_kept
