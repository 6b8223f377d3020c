-- ===== src/Runs/Cases.antt =====
-- src/leon_control_plane/store.py: what a successful operation on assignments and runs has checked, and
-- the state that it leaves.
use leon_ai_assistant.Base.{
  ℕ, ◌≡◌, refl, ◌⊎◌, inl, inr, true, false, ◌||◌, not, String, List, ◌∷◌, some, arith, Bool-cases,
  is_some, map,
}
use leon_ai_assistant.Approvals.{
  Store, task_of, blank, agent_assignment_proposed, agent_assignment_rejected, agent_run_started,
  agent_run_completed, agent_run_reviewed,
}
use leon_ai_assistant.Approvals.Outcome.{
  did, require-did, >>=-did, or_refuse-did, or_refuse, unknown_task, task_missing, bad_runner,
  unsafe_assignment, id_taken, note_missing, secret_found, unknown_proposal, not_prepared,
  policy_denied, risk_too_high, bad_completion, unknown_run, bad_review, not_completed, task_closed,
}
use leon_ai_assistant.Risk.Policy.{Verdict, evaluate_action_policy}
use leon_ai_assistant.Runs.{
  parse_runner, Assignment, Proposal, Run, RunStatus, running, ReviewStatus, Evidence, RollbackRow,
  Desk, Tools, run_of, proposal_of, set_run, set_proposal, report, redact_assignment,
}
use leon_ai_assistant.Runs.Rollback.{insert_rollback_record}
use leon_ai_assistant.Runs.Create.{
  RunArgs, gate_call, too_risky, fresh_run, create_agent_run, run_rollback,
}
use leon_ai_assistant.Runs.Complete.{same_status, is_completion, completed, complete_agent_run}
use leon_ai_assistant.Runs.Review.{is_decision, follow_up, reviewed, review_agent_run}
use leon_ai_assistant.Runs.Assign.{
  is_prepared, fresh_proposal, create_agent_assignment_proposal, rejected_proposal,
  reject_agent_assignment_proposal, marked, begin_apply, is_terminal,
}

pub record Proposes (t : Tools) (now id : ℕ) (given : Assignment) (d d' : Desk) (task : ℕ)
    : Type 0 where
  pub named : (redact_assignment t given).task_id ≡ some task
  pub runner : is_some (parse_runner (redact_assignment t given).runner_kind) ≡ true
  pub safe :
      ((redact_assignment t given).external_calls_allowed
        || (redact_assignment t given).secret_values_read)
      ≡ false
  pub unused : is_some (proposal_of id d) ≡ false
  pub result :
      d'
      ≡ report (agent_assignment_proposed id) (record d {
        proposals = fresh_proposal now id task (redact_assignment t given) ∷ d.proposals;
      })

pub proposal-Proposes :
    (t : Tools) (now id : ℕ) (given : Assignment) (d d' : Desk)
    → create_agent_assignment_proposal t now id given d ≡ did d'
    → (task : ℕ) × Proposes t now id given d d' task
unfolding create_agent_assignment_proposal
proposal-Proposes t now id given d d' h =
    let a = redact_assignment t given in
    let (task, e₁, h₁) = >>=-did (or_refuse a.task_id task_missing) h in
    let (runner, e₂, h₂) = >>=-did (or_refuse (parse_runner a.runner_kind) bad_runner) h₁ in
    let (s, h₃) =
      require-did (not (a.external_calls_allowed || a.secret_values_read)) unsafe_assignment h₂ in
    let (row, e₄, h₄) = >>=-did (or_refuse (task_of task d.store) unknown_task) h₃ in
    let (u, h₅) = require-did (not (is_some (proposal_of id d))) id_taken h₄ in
    let e₂' = or_refuse-did (parse_runner a.runner_kind) bad_runner e₂ in
    (
      task,
      record {
        named = or_refuse-did a.task_id task_missing e₁;
        runner = rw e₂' refl;
        safe = ground (arith, s);
        unused = ground (arith, u);
        result = cc (h₅);
      },
    )

-- Both a rejection and the start of an application change one prepared proposal.
pub record Prepared (id : ℕ) (d : Desk) (p : Proposal) : Type 0 where
  pub found : proposal_of id d ≡ some p
  pub prepared : is_prepared p.status ≡ true

pub reject-cases :
    (t : Tools) (now id : ℕ) (note : String) (d d' : Desk)
    → reject_agent_assignment_proposal t now id note d ≡ did d'
    → (p : Proposal) × Prepared id d p
      × (d'
          ≡ report (agent_assignment_rejected id) (set_proposal id (rejected_proposal now note) d))
unfolding reject_agent_assignment_proposal
reject-cases t now id note d d' h =
    let (_, h₁) = require-did (not (blank note)) note_missing h in
    let (_, h₂) = require-did (not (t.contains_secret note)) secret_found h₁ in
    let (p, e, h₃) = >>=-did (or_refuse (proposal_of id d) unknown_proposal) h₂ in
    let (q, h₄) = require-did (is_prepared p.status) not_prepared h₃ in
    (p, record { found = or_refuse-did (proposal_of id d) unknown_proposal e; prepared = q }, cc h₄)

pub begin-cases :
    (now id : ℕ) (note : String) (d d' : Desk)
    → begin_apply now note id d ≡ did d'
    → (p : Proposal) × Prepared id d p × (d' ≡ set_proposal id (marked now note) d)
unfolding begin_apply
begin-cases now id note d d' h =
    let (p, e, h₁) = >>=-did (or_refuse (proposal_of id d) unknown_proposal) h in
    let (q, h₂) = require-did (is_prepared p.status) not_prepared h₁ in
    let (task, f, h₃) = >>=-did (or_refuse (task_of p.task_id d.store) task_closed) h₂ in
    let (_, h₄) = require-did (not (is_terminal task.status)) task_closed h₃ in
    (p, record { found = or_refuse-did (proposal_of id d) unknown_proposal e; prepared = q }, cc h₄)

pub record Starts (t : Tools) (now id rollback : ℕ) (a : RunArgs) (d d' : Desk) (gate : Verdict)
    (rows : List RollbackRow) : Type 0 where
  pub modest : too_risky a.runner a.risk ≡ false
  pub judged :
      evaluate_action_policy (gate_call a.runner (map t.redact a.allowed_actions)) ≡ some gate
  pub allowed : gate.execution_allowed ≡ true
  pub task : is_some (task_of a.task_id d.store) ≡ true
  pub unused : is_some (run_of id d) ≡ false
  pub rollback_stored :
      insert_rollback_record t (run_rollback t rollback id a) d.rollbacks ≡ did rows
  pub result :
      d'
      ≡ report
          (agent_run_started id)
          (record d { runs = fresh_run t now id rollback a gate ∷ d.runs; rollbacks = rows })

pub create-Starts :
    (t : Tools) (now id rollback : ℕ) (a : RunArgs) (d d' : Desk)
    → create_agent_run t now id rollback a d ≡ did d'
    → (gate : Verdict) × (rows : List RollbackRow) × Starts t now id rollback a d d' gate rows
unfolding create_agent_run
create-Starts t now id rollback a d d' h =
    let c = evaluate_action_policy (gate_call a.runner (map t.redact a.allowed_actions)) in
    let (m, h₁) = require-did (not (too_risky a.runner a.risk)) risk_too_high h in
    let (gate, e₂, h₂) = >>=-did (or_refuse c policy_denied) h₁ in
    let (g, h₃) = require-did gate.execution_allowed policy_denied h₂ in
    let (task, e₄, h₄) = >>=-did (or_refuse (task_of a.task_id d.store) unknown_task) h₃ in
    let (u, h₅) = require-did (not (is_some (run_of id d))) id_taken h₄ in
    let (rows, e₆, h₆) =
      >>=-did (insert_rollback_record t (run_rollback t rollback id a) d.rollbacks) h₅ in
    let e₄' = or_refuse-did (task_of a.task_id d.store) unknown_task e₄ in
    (
      gate,
      rows,
      record {
        modest = ground (arith, m);
        judged = or_refuse-did c policy_denied e₂;
        allowed = g;
        task = rw e₄' refl;
        unused = ground (arith, u);
        rollback_stored = e₆;
        result = cc h₆;
      },
    )

-- A completion changes one running run, or repeats what was done.
pub record Completes (t : Tools) (now id : ℕ) (summary : String) (evidence : List Evidence)
    (status : RunStatus) (recovery : List Evidence) (d d' : Desk) (r : Run) : Type 0 where
  pub known : is_completion status ≡ true
  pub found : run_of id d ≡ some r
  pub running : same_status r.status running ≡ true
  pub result :
      d'
      ≡ report
          (agent_run_completed id)
          (set_run id (completed t now status summary evidence recovery) d)

pub complete-cases :
    (t : Tools) (now id : ℕ) (summary : String) (evidence : List Evidence) (status : RunStatus)
    (recovery : List Evidence) (d d' : Desk)
    → complete_agent_run t now id summary evidence status recovery d ≡ did d'
    → (d' ≡ d) ⊎ ((r : Run) × Completes t now id summary evidence status recovery d d' r)
unfolding complete_agent_run
complete-cases t now id summary evidence status recovery d d' h =
    let (k, h₁) = require-did (is_completion status) bad_completion h in
    let (r, e, h₂) = >>=-did (or_refuse (run_of id d) unknown_run) h₁ in
    let f = or_refuse-did (run_of id d) unknown_run e in
    elim (Bool-cases (same_status r.status running)) [
      | inl s ↦
          let h₃ = rw s at h₂ in
          inr (r, record { known = k; found = f; running = s; result = cc h₃ })
      | inr s ↦
          let h₃ = rw s at h₂ in
          elim (Bool-cases (same_status r.status status)) [
            | inl q ↦ let h₄ = rw q at h₃ in inl (cc h₄)
            | inr q ↦ let h₄ = rw q at h₃ in absurd (cc h₄)
          ]
    ]

pub record Reviews (t : Tools) (now id : ℕ) (status : ReviewStatus) (note : String) (d d' : Desk)
    (r : Run) (s : Store) : Type 0 where
  pub decided : is_decision status ≡ true
  pub noted : blank note ≡ false
  pub found : run_of id d ≡ some r
  pub ready : is_completion r.status ≡ true
  pub walked : follow_up t now r status (report (agent_run_reviewed id) d).store ≡ did s
  pub result : d' ≡ record (set_run id (reviewed now status note) d) { store = s }

pub review-Reviews :
    (t : Tools) (now id : ℕ) (status : ReviewStatus) (note : String) (d d' : Desk)
    → review_agent_run t now id status note d ≡ did d'
    → (r : Run) × (s : Store) × Reviews t now id status note d d' r s
unfolding review_agent_run
review-Reviews t now id status note d d' h =
    let (k, h₁) = require-did (is_decision status) bad_review h in
    let (n, h₂) = require-did (not (blank note)) note_missing h₁ in
    let (_, h₃) = require-did (not (t.contains_secret note)) secret_found h₂ in
    let (r, e, h₄) = >>=-did (or_refuse (run_of id d) unknown_run) h₃ in
    let (c, h₅) = require-did (is_completion r.status) not_completed h₄ in
    let f = or_refuse-did (run_of id d) unknown_run e in
    let (s, w, h₆) =
      >>=-did (follow_up t now r status (report (agent_run_reviewed id) d).store) h₅ in
    (
      r,
      s,
      record {
        decided = k;
        noted = ground (arith, n);
        found = f;
        ready = c;
        walked = w;
        result = cc h₆;
      },
    )
