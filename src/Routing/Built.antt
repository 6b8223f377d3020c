-- ===== src/Routing/Built.antt =====
-- src/leon_control_plane/agent_assignment.py: what a proposal was built from, and what it forbids.
use leon_ai_assistant.Base.{
  ℕ, ◌≡◌, refl, inl, inr, ◌∙◌, sym, ap, subst, true, false, String, List, ◌∷◌, [], ◌++◌, some,
  str_eq, if◌then◌else◌, All, arith, Bool-cases,
}
use leon_ai_assistant.Base.Text.{one_of, contains, contains_any, normalized, strip, lower}
use leon_ai_assistant.Approvals.Outcome.{
  Outcome, did, or_refuse, >>=-did, or_refuse-did, bad_runner, policy_denied,
}
use text.Mathlib.TextEquality.{eq_iff}
use leon_ai_assistant.Risk.{
  names_any, has_effects, classify, request, infer_risk_class, hard_block_marker,
  hard_block_actions,
}
use leon_ai_assistant.Risk.Policy.{
  Verdict, evaluate_action_policy, selected_class, verdict, is_hard_blocked,
}
use leon_ai_assistant.Routing.{RoutingPolicy}
use leon_ai_assistant.Routing.Assign.{
  TaskFacts, AssignArgs, required_forbidden, with_forbidden, assignment_call, may_execute, proposed,
  build_agent_assignment_proposal, or_actions, default_allowed,
}
use leon_ai_assistant.Runs.{or_default, Runner, local_mock, local_ollama, parse_runner, Assignment}
use leon_ai_assistant.Runs.Create.{gate_call}

str_eq_refl : (s : String) → str_eq s s ≡ true
str_eq_refl s = (eq_iff s s).1 refl

did-injective {ℓ} : {A : Type ℓ} (a b : A) → ◌≡◌ {A = Outcome A} (did a) (did b) → a ≡ b
did-injective a b h = cc h

one_of-append : (s : String) (xs ys : List String) → one_of s xs ≡ true → one_of s (xs ++ ys) ≡ true
unfolding one_of
one_of-append s [] ys h = absurd (cc h)
one_of-append s (x ∷ xs) ys h = ground (arith, h, one_of-append s xs ys)

-- The two calls of the policy gate, for the proposal and for the run, get the same verdict.
same_gate :
    (runner : Runner) (actions : List String)
    → evaluate_action_policy (assignment_call runner actions)
      ≡ evaluate_action_policy (gate_call runner actions)
unfolding evaluate_action_policy selected_class verdict is_hard_blocked assignment_call gate_call
    infer_risk_class classify request names_any has_effects normalized strip lower hard_block_marker
    contains contains_any hard_block_actions
same_gate local_mock actions = refl
same_gate local_ollama actions = refl

-- The loop keeps what is forbidden, and forbids every required action.
with_forbidden-keeps :
    (required xs : List String) (s : String)
    → one_of s xs ≡ true
    → one_of s (with_forbidden required xs) ≡ true
unfolding with_forbidden
with_forbidden-keeps [] xs s h = h
with_forbidden-keeps (r ∷ required) xs s h =
    with_forbidden-keeps required (if one_of r xs then xs else xs ++ (r ∷ [])) s
      (elim (Bool-cases (one_of r xs)) [
        | inl e ↦ ground (arith, e, h)
        | inr e ↦ ground (arith, e, one_of-append s xs (r ∷ []) h)
      ])

one_of-last : (s : String) (xs : List String) → one_of s (xs ++ (s ∷ [])) ≡ true
unfolding one_of
one_of-last s [] = ground (arith, str_eq_refl s)
one_of-last s (x ∷ xs) = ground (arith, one_of-last s xs)

with_forbidden-All :
    (required xs : List String) → All (λ k. one_of k (with_forbidden required xs) ≡ true) required
unfolding with_forbidden
with_forbidden-All [] xs = tt
with_forbidden-All (r ∷ required) xs = (
  with_forbidden-keeps required (if one_of r xs then xs else xs ++ (r ∷ [])) r
      (elim (Bool-cases (one_of r xs)) [
        | inl e ↦ ground (arith, e)
        | inr e ↦ ground (arith, e, one_of-last r xs)
      ]),
  with_forbidden-All required (if one_of r xs then xs else xs ++ (r ∷ [])),
)

module _ (print : ℕ → String) (p : RoutingPolicy) (facts : TaskFacts) (args : AssignArgs)
    (a : Assignment) where
  -- What a proposal was built from.
  pub record Built : Type 0 where
    pub runner : Runner
    pub verdict : Verdict
    pub known : parse_runner a.runner_kind ≡ some runner
    pub gate : evaluate_action_policy (gate_call runner a.allowed_actions) ≡ some verdict
    pub task : a.task_id ≡ some facts.id
    pub external : a.external_calls_allowed ≡ false
    pub secrets : a.secret_values_read ≡ false
    pub executable : a.execution_allowed ≡ may_execute runner a.risk verdict
    pub risk : a.risk ≡ or_default (or_default facts.risk_level facts.risk) "medium"
    pub forbidden : All (λ k. one_of k a.forbidden_actions ≡ true) required_forbidden

  proposed-Built :
      (runner : Runner) (v : Verdict)
      → parse_runner args.runner_kind ≡ some runner
      → evaluate_action_policy
          (assignment_call runner (or_actions args.allowed_actions default_allowed))
        ≡ some v
      → a ≡ proposed print p runner facts args v
      → Built
  unfolding proposed
  proposed-Built runner v k g same = record {
    runner = runner;
    verdict = v;
    known = ground (arith, same, k);
    gate =
        ap (λ (x : Assignment). evaluate_action_policy (gate_call runner x.allowed_actions)) same
        ∙ (sym (same_gate runner (or_actions args.allowed_actions default_allowed)) ∙ g);
    task = ap (λ (x : Assignment). x.task_id) same;
    external = ap (λ (x : Assignment). x.external_calls_allowed) same;
    secrets = ap (λ (x : Assignment). x.secret_values_read) same;
    executable =
        ap (λ (x : Assignment). x.execution_allowed) same
        ∙ ap (λ (x : Assignment). may_execute runner x.risk v) (sym same);
    risk = ap (λ (x : Assignment). x.risk) same;
    forbidden =
        subst
          (λ (x : Assignment). All (λ k. one_of k x.forbidden_actions ≡ true) required_forbidden)
          (sym same)
          (with_forbidden-All required_forbidden
            (or_actions args.forbidden_actions required_forbidden));
  }

  pub build-Built : build_agent_assignment_proposal print p facts args ≡ did a → Built
  unfolding build_agent_assignment_proposal
  build-Built h =
      let (runner, k, h1) = >>=-did (or_refuse (parse_runner args.runner_kind) bad_runner) h in
      let (v, g, h2) =
        >>=-did
          (or_refuse
            (evaluate_action_policy
              (assignment_call runner (or_actions args.allowed_actions default_allowed)))
            policy_denied)
          h1 in
      proposed-Built runner v (or_refuse-did (parse_runner args.runner_kind) bad_runner k)
        (or_refuse-did _ policy_denied g) (sym (did-injective _ _ h2))
