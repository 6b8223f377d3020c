-- ===== src/Routing/Accepted.antt =====
-- src/leon_control_plane/agent_assignment.py, src/leon_control_plane/store.py: from the proposal that is
-- built for a task to the run that it starts.
use leon_ai_assistant.Base.{
  ℕ, ◌≡◌, refl, inl, inr, ◌∙◌, sym, ap, subst, subst₂, true, false, ◌&&◌, String, List, ◌∷◌, [],
  map, none, some, str_eq, if◌then◌else◌, All, arith, Bool-cases,
}
use leon_ai_assistant.Base.Text.{one_of, lower}
use leon_ai_assistant.Approvals.Outcome.{did}
use text.Mathlib.TextEquality.{eq_iff}
use leon_ai_assistant.Risk.Policy.{Verdict, evaluate_action_policy}
use leon_ai_assistant.Routing.{RoutingPolicy}
use leon_ai_assistant.Routing.Assign.{
  TaskFacts, AssignArgs, required_forbidden, may_execute, build_agent_assignment_proposal,
}
use leon_ai_assistant.Runs.{Runner, local_mock, local_ollama, parse_runner, Assignment}
use leon_ai_assistant.Runs.Create.{gate_call, too_risky}
use leon_ai_assistant.Routing.Built.{build-Built}
use leon_ai_assistant.Approvals.{TaskRow, task_of, agent_run_started, agent_assignment_proposed}
use leon_ai_assistant.Base.Rows.{find}
use leon_ai_assistant.Base.{==_refl}
use leon_ai_assistant.Runs.{
  Desk, Tools, RollbackRow, report, proposal_of, run_of, redact_assignment, or_default,
}
use leon_ai_assistant.Runs.Create.{RunArgs, fresh_run, create_agent_run, run_rollback}
use leon_ai_assistant.Runs.Rollback.{insert_rollback_record}
use leon_ai_assistant.Runs.Assign.{
  fresh_proposal, create_agent_assignment_proposal, run_args, create_run_of,
}

abbrev pub high_risk : List String
high_risk = "high" ∷ "r4" ∷ "r5" ∷ []

-- The local model never executes at high risk.
not_at_high_risk :
    (r : Runner) (a : Assignment) (v : Verdict)
    → parse_runner a.runner_kind ≡ some r
    → a.execution_allowed ≡ may_execute r a.risk v
    → (a.execution_allowed
        && str_eq a.runner_kind "local_ollama"
        && one_of (lower a.risk) high_risk)
      ≡ false
unfolding may_execute too_risky parse_runner
not_at_high_risk local_ollama a v k e = ground (arith, k, e)
not_at_high_risk local_mock a v k e =
    let q : a.runner_kind ≡ "local_mock" =
      (eq_iff a.runner_kind "local_mock").0 (ground (arith, k)) in
    rw q (ground arith)

-- The desk with a new proposal.
abbrev proposed_desk : ℕ → ℕ → ℕ → Assignment → Desk → Desk
proposed_desk now id task a d =
    report (agent_assignment_proposed id)
      (record d { proposals = fresh_proposal now id task a ∷ d.proposals })

create_proposal :
    (t : Tools) (now id task : ℕ) (given a : Assignment) (r : Runner) (d : Desk) (row : TaskRow)
    → redact_assignment t given ≡ a
    → a.task_id ≡ some task
    → parse_runner a.runner_kind ≡ some r
    → a.external_calls_allowed ≡ false
    → a.secret_values_read ≡ false
    → task_of task d.store ≡ some row
    → proposal_of id d ≡ none
    → create_agent_assignment_proposal t now id given d ≡ did (proposed_desk now id task a d)
unfolding create_agent_assignment_proposal
create_proposal t now id task given a r d row plain e k x s found new =
    rw plain (ground (arith, e, k, x, s, found, new))

abbrev started_desk : Tools → ℕ → ℕ → ℕ → RunArgs → Verdict → List RollbackRow → Desk → Desk
started_desk t now run rollback x gate rows d =
    report (agent_run_started run)
      (record d { runs = fresh_run t now run rollback x gate ∷ d.runs; rollbacks = rows })

newest :
    (id task now : ℕ) (a : Assignment) (d : Desk)
    → proposal_of id (proposed_desk now id task a d) ≡ some (fresh_proposal now id task a)
unfolding find fresh_proposal
newest id task now a d = ground (arith, ==_refl id)

some-injective {ℓ} : {A : Type ℓ} (a b : A) → some a ≡ some b → a ≡ b
some-injective a b h = cc h

executable-passes :
    (r : Runner) (a : Assignment) (v : Verdict)
    → a.execution_allowed ≡ true
    → a.execution_allowed ≡ may_execute r a.risk v
    → (too_risky r a.risk ≡ false) × (v.execution_allowed ≡ true)
unfolding may_execute
executable-passes r a v x e = (ground (arith, x, e), ground (arith, x, e))

plain_actions :
    (t : Tools) (a : Assignment)
    → redact_assignment t a ≡ a
    → map t.redact a.allowed_actions ≡ a.allowed_actions
unfolding redact_assignment
plain_actions t a plain = ap (λ (y : Assignment). y.allowed_actions) plain

medium_twice :
    (risk given : String) → risk ≡ or_default given "medium" → or_default risk "medium" ≡ risk
medium_twice risk given e = elim (Bool-cases (str_eq given "")) [
  | inl q ↦
      subst (λ z. or_default z "medium" ≡ z) (sym (e ∙ ap (λ b. if b then "medium" else given) q))
        refl
  | inr q ↦
      subst (λ z. or_default z "medium" ≡ z) (sym (e ∙ ap (λ b. if b then "medium" else given) q))
        (ap (λ b. if b then "medium" else given) q)
]

-- A run starts when every check passes.
starting :
    (t : Tools) (now run rollback : ℕ) (x : RunArgs) (d : Desk) (gate : Verdict) (row : TaskRow)
    (rows : List RollbackRow)
    → too_risky x.runner x.risk ≡ false
    → evaluate_action_policy (gate_call x.runner (map t.redact x.allowed_actions)) ≡ some gate
    → gate.execution_allowed ≡ true
    → task_of x.task_id d.store ≡ some row
    → run_of run d ≡ none
    → insert_rollback_record t (run_rollback t rollback run x) d.rollbacks ≡ did rows
    → create_agent_run t now run rollback x d ≡ did (started_desk t now run rollback x gate rows d)
unfolding create_agent_run
starting t now run rollback x d gate row rows careful judged allowed found new kept =
    ground (arith, careful, judged, allowed, found, new, kept)

task_run :
    (t : Tools) (now run rollback task : ℕ) (r : Runner) (a : Assignment) (d : Desk)
    → a.task_id ≡ some task
    → create_run_of t now run rollback r a d
      ≡ create_agent_run t now run rollback (run_args task r a) d
unfolding create_run_of
task_run t now run rollback task r a d e = ground (arith, e)

module _ (print : ℕ → String) (p : RoutingPolicy) (facts : TaskFacts) (args : AssignArgs)
    (a : Assignment) (h : build_agent_assignment_proposal print p facts args ≡ did a) where
  -- A proposal that is built allows no external call, reads no secret, forbids every required action,
  -- whatever the caller allowed or forbade, and is not executable by the local model at high risk.
  pub built_proposal_bounded :
      (a.external_calls_allowed ≡ false)
      × (a.secret_values_read ≡ false)
      × All (λ k. one_of k a.forbidden_actions ≡ true) required_forbidden
      × ((a.execution_allowed
            && str_eq a.runner_kind "local_ollama"
            && one_of (lower a.risk) high_risk)
          ≡ false)
  built_proposal_bounded =
      let b = build-Built print p facts args a h in
      (
        b.external,
        b.secrets,
        b.forbidden,
        not_at_high_risk b.runner a b.verdict b.known b.executable,
      )

  -- The store accepts the proposal for an existing task, under a new id, if it holds nothing to redact.
  pub built_proposal_accepted :
      (t : Tools) (now id : ℕ) (d : Desk) (row : TaskRow)
      → redact_assignment t a ≡ a
      → task_of facts.id d.store ≡ some row
      → proposal_of id d ≡ none
      → (d' : Desk) × (create_agent_assignment_proposal t now id a d ≡ did d')
        × (proposal_of id d' ≡ some (fresh_proposal now id facts.id a))
  unfolding create_agent_assignment_proposal
  built_proposal_accepted t now id d row plain found new =
      let b = build-Built print p facts args a h in
      (
        proposed_desk now id facts.id a d,
        create_proposal t now id facts.id a a b.runner d row plain b.task b.known b.external
            b.secrets found new,
        newest id facts.id now a d,
      )

  -- An executable proposal that holds nothing to redact starts a run: neither the risk guard nor the policy
  -- gate of `create_agent_run` stops it, for an existing task, an unused run id and an accepted rollback
  -- record.
  pub executable_proposal_starts :
      (t : Tools) (now run rollback : ℕ) (d : Desk) (row : TaskRow) (r : Runner)
      (rows : List RollbackRow)
      → redact_assignment t a ≡ a
      → parse_runner a.runner_kind ≡ some r
      → a.execution_allowed ≡ true
      → task_of facts.id d.store ≡ some row
      → run_of run d ≡ none
      → insert_rollback_record t (run_rollback t rollback run (run_args facts.id r a)) d.rollbacks
        ≡ did rows
      → (d' : Desk) × (create_run_of t now run rollback r a d ≡ did d')
  unfolding run_args
  executable_proposal_starts t now run rollback d row r rows plain k x found new kept =
      let b = build-Built print p facts args a h in
      let same : b.runner ≡ r = some-injective b.runner r (sym b.known ∙ k) in
      let actions : map t.redact a.allowed_actions ≡ a.allowed_actions = plain_actions t a plain in
      let judged : evaluate_action_policy (gate_call r (map t.redact a.allowed_actions))
          ≡ some b.verdict =
        rw actions (
          subst (λ z. evaluate_action_policy (gate_call z a.allowed_actions) ≡ some b.verdict) same
            b.gate) in
      let (modest, allowed) = executable-passes b.runner a b.verdict x b.executable in
      let careful : too_risky r (or_default a.risk "medium") ≡ false =
        subst₂ (λ y z. too_risky y z ≡ false) same
          (sym (medium_twice a.risk (or_default facts.risk_level facts.risk) b.risk)) modest in
      (
        _,
        task_run t now run rollback facts.id r a d b.task
            ∙ starting t now run rollback (run_args facts.id r a) d b.verdict row rows careful
                judged allowed found new kept,
      )
