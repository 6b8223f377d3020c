-- ===== src/Runs/Authorized.antt =====
-- src/leon_control_plane/store.py: when an application of a proposal creates a run.
use leon_ai_assistant.Base.{
  ℕ, ◌≡◌, refl, ◌∙◌, sym, ap, subst, ◌⊎◌, inl, inr, true, false, ◌||◌, ◌&&◌, not, String, Option,
  some, arith, ◌==◌, is_some,
}
use leon_ai_assistant.Base.Rows.{find, find-All}
use leon_ai_assistant.Base.Keys.{by_key-update_self}
use leon_ai_assistant.Approvals.{blank, task_of}
use leon_ai_assistant.Approvals.Outcome.{
  Outcome, Refusal, did, refused, require-did, >>=-did, or_refuse, note_missing, secret_found,
  unknown_proposal, not_prepared, unknown_task, task_closed, bad_runner, execution_denied,
  unsafe_assignment, no_queue, did-pair,
}
use leon_ai_assistant.Runs.{Runner, parse_runner, Proposal, Run, Desk, Tools, run_of, proposal_of}
use leon_ai_assistant.Runs.Create.{is_ollama}
use leon_ai_assistant.Runs.Assign.{
  is_prepared, is_terminal, check_apply, marked, begin_apply, create_run_of, abandon_apply, linked,
  mark_applied, Applied, Texts, after_create, after_begin, after_check,
  apply_agent_assignment_proposal,
}
use leon_ai_assistant.Runs.Invariant.{DeskIsValid, Names}
use leon_ai_assistant.Runs.Cases.{begin-cases, create-Starts}
use leon_ai_assistant.Runs.Steps.{Reach-DeskIsValid}
use leon_ai_assistant.Runs.Apply.{check-found, create-Created, apply-Reach}
use leon_ai_assistant.Runs.Settle.{Linked, start_work-proposals}

-- What a proposal that becomes a run was: prepared, executable, and neither calling out nor reading secrets.
pub record Authorized (p : Proposal) : Type 0 where
  pub prepared : is_prepared p.status ≡ true
  pub executable : p.assignment.execution_allowed ≡ true
  pub safe : (p.assignment.external_calls_allowed || p.assignment.secret_values_read) ≡ false

check-Authorized :
    (t : Tools) (note : String) (queue : Option (Option ℕ)) (id : ℕ) (d : Desk) (runner : Runner)
    (p : Proposal)
    → check_apply t note queue id d ≡ did (runner, p)
    → Authorized p
unfolding check_apply
check-Authorized t note queue id d runner p h =
    let (_, h₁) = require-did (not (blank note)) note_missing h in
    let (_, h₂) = require-did (not (t.contains_secret note)) secret_found h₁ in
    let (q, e, h₃) = >>=-did (or_refuse (proposal_of id d) unknown_proposal) h₂ in
    let (a, h₄) = require-did (is_prepared q.status) not_prepared h₃ in
    let (task, _, h₅) = >>=-did (or_refuse (task_of q.task_id d.store) unknown_task) h₄ in
    let (_, h₆) = require-did (not (is_terminal task.status)) task_closed h₅ in
    let (runner', _, h₇) =
      >>=-did (or_refuse (parse_runner q.assignment.runner_kind) bad_runner) h₆ in
    let (b, h₈) = require-did q.assignment.execution_allowed execution_denied h₇ in
    let (c, h₉) =
      require-did (not (q.assignment.external_calls_allowed || q.assignment.secret_values_read))
        unsafe_assignment h₈ in
    let (_, h₁₀) = require-did (not (is_ollama runner' && not (is_some queue))) no_queue h₉ in
    let (_, k) = did-pair h₁₀ in
    subst Authorized (sym k) (record { prepared = a; executable = b; safe = ground (arith, c) })

module _ (t : Tools) (now run rollback id : ℕ) (note : String) (x : Texts)
    (queue : Option (Option ℕ)) (d u : Desk) (o : Outcome Applied) (v : DeskIsValid d)
    (p : Proposal) (f : proposal_of id d ≡ some p) where
  -- The run of the proposal: under an id that was free, for the proposal's task.
  pub record Started : Type 0 where
    pub authorized : Authorized p
    pub fresh : is_some (run_of run d) ≡ false
    pub proposal : Proposal
    pub created : Run
    pub found : proposal_of id u ≡ some proposal
    pub linked : Linked run proposal
    pub run_found : run_of run u ≡ some created
    pub same_task : created.task_id ≡ p.task_id

  abbrev pub Refused : Type 0
  Refused = (e : Refusal) × (o ≡ refused e) × (u.runs ≡ d.runs)

  same_runs : (d₁ : Desk) → begin_apply now note id d ≡ did d₁ → d₁.runs ≡ d.runs
  same_runs d₁ b = let (q, k, m) = begin-cases now id note d d₁ b in ap (λ (y : Desk). y.runs) m

  created-Started :
      (runner : Runner) (d₁ d₂ : Desk)
      → Authorized p
      → DeskIsValid u
      → begin_apply now note id d ≡ did d₁
      → create_run_of t now run rollback runner p.assignment d₁ ≡ did d₂
      → u.proposals ≡ (mark_applied now run id note d₂).proposals
      → Started
  unfolding mark_applied linked marked
  created-Started runner d₁ d₂ a w b q same =
      let (args, r, c, k) = create-Created t now run rollback id note runner p d d₁ d₂ v f b q in
      let (gate, rows, s) = create-Starts t now run rollback args d₁ d₂ c in
      let p' = linked now run note (marked now note p) in
      let e : proposal_of id u ≡ some p' =
        ap (λ ys. find (λ (y : Proposal). y.id == id) ys) same
        ∙ by_key-update_self (λ (y : Proposal). y.id) id (linked now run note) (marked now note p)
            d₂.proposals (λ y. ground arith) k.proposal in
      let names = find-All (λ (y : Proposal). y.id == id) (Names u) u.proposals p' w.names e in
      let (r', g, task) = names run refl in
      record {
        authorized = a;
        fresh =
            subst (λ rs. is_some (find (λ (y : Run). y.id == run) rs) ≡ false) (same_runs d₁ b)
              s.unused;
        proposal = p';
        created = r';
        found = e;
        linked = (refl, refl);
        run_found = g;
        same_task = task;
      }

  after_create-Either :
      (runner : Runner) (d₁ : Desk) (c : Outcome Desk)
      → Authorized p
      → DeskIsValid u
      → begin_apply now note id d ≡ did d₁
      → create_run_of t now run rollback runner p.assignment d₁ ≡ c
      → after_create t now run rollback id note x queue runner d₁ c ≡ (o, u)
      → Refused ⊎ Started
  unfolding after_create abandon_apply
  after_create-Either runner d₁ (refused e) a w b q h =
      let m : abandon_apply now id d₁ ≡ u = cc h in
      inl (e, cc h, ap (λ (y : Desk). y.runs) (sym m) ∙ same_runs d₁ b)
  after_create-Either runner d₁ (did d₂) a w b q h = inr (
      created-Started runner d₁ d₂ a w b q
        (start_work-proposals t now run x queue runner (mark_applied now run id note d₂) u o h))

  after_begin-Either :
      (runner : Runner) (b : Outcome Desk)
      → Authorized p
      → DeskIsValid u
      → begin_apply now note id d ≡ b
      → after_begin t now run rollback id note x queue runner p d b ≡ (o, u)
      → Refused ⊎ Started
  unfolding after_begin
  after_begin-Either runner (refused e) a w b h =
      let m : d ≡ u = cc h in inl (e, cc h, ap (λ (y : Desk). y.runs) (sym m))
  after_begin-Either runner (did d₁) a w b h = after_create-Either runner d₁ _ a w b refl h

  after_check-Either :
      (c : Outcome (Runner × Proposal))
      → DeskIsValid u
      → check_apply t note queue id d ≡ c
      → after_check t now run rollback id note x queue d c ≡ (o, u)
      → Refused ⊎ Started
  unfolding after_check
  after_check-Either (refused e) w c h =
      let m : d ≡ u = cc h in inl (e, cc h, ap (λ (y : Desk). y.runs) (sym m))
  after_check-Either (did (runner, q)) w c h =
      let same : q ≡ p = cc (f, check-found t note queue id d runner q c) in
      after_begin-Either runner _
        (subst Authorized same (check-Authorized t note queue id d runner q c)) w refl
        (subst
          (λ y.
            after_begin t now run rollback id note x queue runner y d (begin_apply now note id d)
            ≡ (o, u))
          same h)

  -- From a valid state, an application of a proposal either raises and changes no run, or the proposal was
  -- prepared, executable, and for an assignment that neither calls out nor reads secrets; then the run's id
  -- was free, and afterwards the proposal is applied and names that run, which is there for its task.
  pub apply_authorized :
      apply_agent_assignment_proposal t now run rollback id note x queue d ≡ (o, u)
      → Refused ⊎ Started
  unfolding apply_agent_assignment_proposal
  apply_authorized h =
      after_check-Either _
        (Reach-DeskIsValid d u v (apply-Reach t now run rollback id note x queue d u o v h)) refl h
