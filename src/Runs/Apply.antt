-- ===== src/Runs/Apply.antt =====
-- src/leon_control_plane/store.py: `apply_agent_assignment_proposal` as a whole, against its transactions.
use leon_ai_assistant.Base.{
  ℕ, ◌≡◌, refl, ◌∙◌, sym, ap, subst, ◌&&◌, ◌||◌, not, String, List, ◌∷◌, Option, none, some, arith,
  ◌==◌, ==_refl, is_some,
}
use leon_ai_assistant.Base.Rows.{find, find-All}
use leon_ai_assistant.Base.Keys.{by_key-update_self}
use leon_ai_assistant.Approvals.{blank, task_of}
use leon_ai_assistant.Approvals.Outcome.{
  Outcome, did, refused, require-did, >>=-did, or_refuse-did, or_refuse, note_missing, secret_found,
  unknown_proposal, not_prepared, unknown_task, task_closed, task_missing, bad_runner,
  execution_denied, unsafe_assignment, no_queue, did-pair,
}
use leon_ai_assistant.Runs.{
  Runner, local_mock, local_ollama, parse_runner, Proposal, Run, Desk, Tools, run_of, proposal_of,
}
use leon_ai_assistant.Runs.Create.{RunArgs, is_ollama, fresh_run, create_agent_run}
use leon_ai_assistant.Runs.Assign.{
  is_prepared, is_terminal, check_apply, marked, begin_apply, run_args, create_run_of, mark_applied,
  Applied, Texts, start_work, or_raise, raise_after, after_create, after_begin, after_check,
  apply_agent_assignment_proposal,
}
use leon_ai_assistant.Runs.Invariant.{ProposalIsValid, DeskIsValid}
use leon_ai_assistant.Runs.Cases.{begin-cases, create-Starts}
use leon_ai_assistant.Runs.Steps.{begins, abandons, creates, links, completes, Reach, here, next}

pub check-found :
    (t : Tools) (note : String) (queue : Option (Option ℕ)) (id : ℕ) (d : Desk) (runner : Runner)
    (p : Proposal)
    → check_apply t note queue id d ≡ did (runner, p)
    → proposal_of id d ≡ some p
unfolding check_apply
check-found t note queue id d runner p h =
    let (_, h₁) = require-did (not (blank note)) note_missing h in
    let (_, h₂) = require-did (not (t.contains_secret note)) secret_found h₁ in
    let (q, e, h₃) = >>=-did (or_refuse (proposal_of id d) unknown_proposal) h₂ in
    let (_, h₄) = require-did (is_prepared q.status) not_prepared h₃ in
    let (task, _, h₅) = >>=-did (or_refuse (task_of q.task_id d.store) unknown_task) h₄ in
    let (_, h₆) = require-did (not (is_terminal task.status)) task_closed h₅ in
    let (runner', _, h₇) =
      >>=-did (or_refuse (parse_runner q.assignment.runner_kind) bad_runner) h₆ in
    let (_, h₈) = require-did q.assignment.execution_allowed execution_denied h₇ in
    let (_, h₉) =
      require-did (not (q.assignment.external_calls_allowed || q.assignment.secret_values_read))
        unsafe_assignment h₈ in
    let (_, h₁₀) = require-did (not (is_ollama runner' && not (is_some queue))) no_queue h₉ in
    let e' = or_refuse-did (proposal_of id d) unknown_proposal e in
    let (_, k) = did-pair h₁₀ in rw e' (ap (λ x. some x) (sym k))

-- The state after the second transaction, in which the run is to be linked.
pub record Created (now run id : ℕ) (note : String) (p : Proposal) (d₂ : Desk) (r : Run)
    : Type 0 where
  pub proposal : proposal_of id d₂ ≡ some (marked now note p)
  pub run_found : run_of run d₂ ≡ some r
  pub same_task : r.task_id ≡ p.task_id

pub first_found :
    (k : ℕ) (r : Run) (rest : List Run)
    → r.id ≡ k
    → find (λ (x : Run). x.id == k) (r ∷ rest) ≡ some r
unfolding find
first_found k r rest q = ground (arith, ==_refl k)

pub create-Created :
    (t : Tools) (now run rollback id : ℕ) (note : String) (runner : Runner) (p : Proposal)
    (d d₁ d₂ : Desk)
    → DeskIsValid d
    → proposal_of id d ≡ some p
    → begin_apply now note id d ≡ did d₁
    → create_run_of t now run rollback runner p.assignment d₁ ≡ did d₂
    → (a : RunArgs) × (r : Run) × (create_agent_run t now run rollback a d₁ ≡ did d₂)
      × Created now run id note p d₂ r
unfolding create_run_of run_args fresh_run marked
create-Created t now run rollback id note runner p d d₁ d₂ v e b c =
    let valid =
      find-All (λ (x : Proposal). x.id == id) ProposalIsValid d.proposals p v.proposals e in
    let (task, f, c') = >>=-did (or_refuse p.assignment.task_id task_missing) c in
    let same : task ≡ p.task_id =
      cc (or_refuse-did p.assignment.task_id task_missing f, valid.task) in
    let (gate, rows, s) =
      create-Starts t now run rollback (run_args task runner p.assignment) d₁ d₂ c' in
    let (q, k, m) = begin-cases now id note d d₁ b in
    let g =
      by_key-update_self (λ (x : Proposal). x.id) id (marked now note) p d.proposals (λ x. refl)
        e in
    (
      run_args task runner p.assignment,
      fresh_run t now run rollback (run_args task runner p.assignment) gate,
      c',
      record {
        proposal =
            ap (λ (x : Desk). proposal_of id x) s.result
            ∙ (ap (λ (x : Desk). proposal_of id x) m ∙ g);
        run_found = ap (λ (x : Desk). run_of run x) s.result ∙ first_found run _ d₁.runs refl;
        same_task = same;
      },
    )

module _ (d d₀ u : Desk) (o : Outcome Applied) where
  or_raise-Reach :
      (answer : Applied) (c : Outcome Desk)
      → ((d' : Desk) → c ≡ did d' → Reach d₀ d')
      → Reach d₀ d
      → or_raise answer c d ≡ (o, u)
      → Reach d₀ u
  or_raise-Reach answer (refused e) step r h = let q : d ≡ u = cc h in subst (λ z. Reach d₀ z) q r
  or_raise-Reach answer (did d') step r h =
      let q : d' ≡ u = cc h in subst (λ z. Reach d₀ z) q (step d' refl)

  raise_after-Reach :
      (c : Outcome Desk)
      → ((d' : Desk) → c ≡ did d' → Reach d₀ d')
      → Reach d₀ d
      → raise_after c d ≡ (o, u)
      → Reach d₀ u
  raise_after-Reach (refused e) step r h = let q : d ≡ u = cc h in subst (λ z. Reach d₀ z) q r
  raise_after-Reach (did d') step r h =
      let q : d' ≡ u = cc h in subst (λ z. Reach d₀ z) q (step d' refl)

  start_work-Reach :
      (t : Tools) (now run : ℕ) (x : Texts) (queue : Option (Option ℕ)) (runner : Runner)
      → Reach d₀ d
      → start_work t now run x queue runner d ≡ (o, u)
      → Reach d₀ u
  unfolding start_work
  start_work-Reach t now run x queue local_mock r h =
      or_raise-Reach _ _ (λ d' e. next r (completes t now run _ _ _ _ d' e)) r h
  start_work-Reach t now run x (some (some job)) local_ollama r h =
      let q : d ≡ u = cc h in subst (λ z. Reach d₀ z) q r
  start_work-Reach t now run x (some none) local_ollama r h =
      raise_after-Reach _ (λ d' e. next r (completes t now run _ _ _ _ d' e)) r h
  start_work-Reach t now run x none local_ollama r h =
      let q : d ≡ u = cc h in subst (λ z. Reach d₀ z) q r

module _ (t : Tools) (now run rollback id : ℕ) (note : String) (x : Texts)
    (queue : Option (Option ℕ)) (d u : Desk) (o : Outcome Applied) (v : DeskIsValid d) where
  after_create-Reach :
      (runner : Runner) (p : Proposal) (d₁ : Desk) (c : Outcome Desk)
      → proposal_of id d ≡ some p
      → begin_apply now note id d ≡ did d₁
      → create_run_of t now run rollback runner p.assignment d₁ ≡ c
      → after_create t now run rollback id note x queue runner d₁ c ≡ (o, u)
      → Reach d u
  unfolding after_create marked
  after_create-Reach runner p d₁ (refused e) f b c h =
      next (next here (begins now id note d₁ b)) (abandons now id u (cc h))
  after_create-Reach runner p d₁ (did d₂) f b c h =
      let (a, r, c', k) = create-Created t now run rollback id note runner p d d₁ d₂ v f b c in
      let r₂ = next (next here (begins now id note d₁ b)) (creates t now run rollback a d₂ c') in
      start_work-Reach (mark_applied now run id note d₂) d u o t now run x queue runner
        (next r₂
          (links now run id note (marked now note p) r _ k.proposal k.run_found k.same_task refl))
        h

  after_begin-Reach :
      (runner : Runner) (p : Proposal) (b : Outcome Desk)
      → proposal_of id d ≡ some p
      → begin_apply now note id d ≡ b
      → after_begin t now run rollback id note x queue runner p d b ≡ (o, u)
      → Reach d u
  unfolding after_begin
  after_begin-Reach runner p (refused e) f b h =
      let q : d ≡ u = cc h in subst (λ z. Reach d z) q here
  after_begin-Reach runner p (did d₁) f b h = after_create-Reach runner p d₁ _ f b refl h

  after_check-Reach :
      (c : Outcome (Runner × Proposal))
      → check_apply t note queue id d ≡ c
      → after_check t now run rollback id note x queue d c ≡ (o, u)
      → Reach d u
  unfolding after_check
  after_check-Reach (refused e) c h = let q : d ≡ u = cc h in subst (λ z. Reach d z) q here
  after_check-Reach (did (runner, p)) c h =
      after_begin-Reach runner p _ (check-found t note queue id d runner p c) refl h

  -- Whether it returns or raises, the call is a sequence of transactions.
  pub apply-Reach :
      apply_agent_assignment_proposal t now run rollback id note x queue d ≡ (o, u) → Reach d u
  unfolding apply_agent_assignment_proposal
  apply-Reach h = after_check-Reach _ refl h
