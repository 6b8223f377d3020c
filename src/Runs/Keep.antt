-- ===== src/Runs/Keep.antt =====
-- src/leon_control_plane/store.py: the operations on assignments and runs, against the invariant of the
-- desk.
use leon_ai_assistant.Base.{ℕ, ◌≡◌, refl, ap, inl, inr, String, List, arith, All-map_of}
use leon_ai_assistant.Base.Keys.{by_key-none_iff_right}
use leon_ai_assistant.Approvals.Outcome.{did}
use leon_ai_assistant.Runs.{
  Assignment, Proposal, Run, RunStatus, ReviewStatus, Evidence, Desk, Tools, run_of, proposal_of,
  set_run, set_proposal,
}
use leon_ai_assistant.Runs.Create.{RunArgs, fresh_run, create_agent_run}
use leon_ai_assistant.Runs.Complete.{completed, complete_agent_run}
use leon_ai_assistant.Runs.Review.{reviewed, review_agent_run}
use leon_ai_assistant.Runs.Assign.{
  fresh_proposal, create_agent_assignment_proposal, rejected_proposal,
  reject_agent_assignment_proposal, marked, begin_apply,
}
use leon_ai_assistant.Runs.Invariant.{Names, DeskIsValid}
use leon_ai_assistant.Runs.Cases.{
  proposal-Proposes, reject-cases, begin-cases, create-Starts, complete-cases, review-Reviews,
}
use leon_ai_assistant.Runs.Walk.{follow_up-StoreIsValid}
use leon_ai_assistant.Runs.Rows.{
  unused-none, report-StoreIsValid, set_proposal-DeskIsValid, with_store-DeskIsValid,
  set_run-DeskIsValid, add_run-Names, fresh_run-RunIsValid,
}

module _ (d d' : Desk) (v : DeskIsValid d) where
  pub propose-DeskIsValid :
      (t : Tools) (now id : ℕ) (given : Assignment)
      → create_agent_assignment_proposal t now id given d ≡ did d'
      → DeskIsValid d'
  unfolding fresh_proposal
  propose-DeskIsValid t now id given h =
      let (task, s) = proposal-Proposes t now id given d d' h in
      rw s.result (record {
        store = report-StoreIsValid _ d v.store;
        proposal_ids = (
          by_key-none_iff_right (λ (x : Proposal). x.id) id d.proposals
              (unused-none (proposal_of id d) s.unused),
          v.proposal_ids,
        );
        run_ids = v.run_ids;
        proposals = (
          record {
            task = s.named;
            runner = s.runner;
            offline = ground (arith, s.safe);
            secretless = ground (arith, s.safe);
            linked = refl;
          },
          v.proposals,
        );
        names = ((λ run e. absurd (cc e)), v.names);
        runs = v.runs;
      })

  pub reject-DeskIsValid :
      (t : Tools) (now id : ℕ) (note : String)
      → reject_agent_assignment_proposal t now id note d ≡ did d'
      → DeskIsValid d'
  unfolding rejected_proposal
  reject-DeskIsValid t now id note h =
      let (p, f, e) = reject-cases t now id note d d' h in
      rw e (
        with_store-DeskIsValid _ (set_proposal id (rejected_proposal now note) d)
          (report-StoreIsValid _ d v.store)
          (set_proposal-DeskIsValid id p (rejected_proposal now note) d v f.found (λ x. refl)
            (λ k. record {
              task = k.task;
              runner = k.runner;
              offline = k.offline;
              secretless = k.secretless;
              linked = ground (arith, k.linked, f.prepared);
            })
            (λ k. k)))

  pub begin-DeskIsValid :
      (now id : ℕ) (note : String) → begin_apply now note id d ≡ did d' → DeskIsValid d'
  unfolding marked
  begin-DeskIsValid now id note h =
      let (p, f, e) = begin-cases now id note d d' h in
      rw e (
        set_proposal-DeskIsValid id p (marked now note) d v f.found (λ x. refl)
          (λ k. record {
            task = k.task;
            runner = k.runner;
            offline = k.offline;
            secretless = k.secretless;
            linked = ground (arith, k.linked, f.prepared);
          })
          (λ k. k))

  pub create-DeskIsValid :
      (t : Tools) (now id rollback : ℕ) (a : RunArgs)
      → create_agent_run t now id rollback a d ≡ did d'
      → DeskIsValid d'
  unfolding fresh_run
  create-DeskIsValid t now id rollback a h =
      let (gate, rows, s) = create-Starts t now id rollback a d d' h in
      let u = unused-none (run_of id d) s.unused in
      let q = ap (λ (x : Desk). x.runs) s.result in
      let names =
        All-map_of (Names d) (Names d') d.proposals
          (λ p k. add_run-Names (fresh_run t now id rollback a gate) d d' p u q k) v.names in
      let valid = fresh_run-RunIsValid t now id rollback a d d' gate rows s in
      rw s.result (record {
        store = report-StoreIsValid _ d v.store;
        proposal_ids = v.proposal_ids;
        run_ids = (by_key-none_iff_right (λ (x : Run). x.id) id d.runs u, v.run_ids);
        proposals = v.proposals;
        names = (rw s.result at names);
        runs = (valid, v.runs);
      })

  pub complete-DeskIsValid :
      (t : Tools) (now id : ℕ) (summary : String) (evidence : List Evidence) (status : RunStatus)
      (recovery : List Evidence)
      → complete_agent_run t now id summary evidence status recovery d ≡ did d'
      → DeskIsValid d'
  unfolding completed
  complete-DeskIsValid t now id summary evidence status recovery h =
      elim (complete-cases t now id summary evidence status recovery d d' h) [
        | inl e ↦ rw e v
        | inr (r, c) ↦ rw c.result (
            with_store-DeskIsValid _
              (set_run id (completed t now status summary evidence recovery) d)
              (report-StoreIsValid _ d v.store)
              (set_run-DeskIsValid id r (completed t now status summary evidence recovery) d v
                c.found (λ x. refl) refl
                (λ k. record {
                  allowed = k.allowed;
                  class = k.class;
                  completed = ground (arith, c.known);
                  unreviewed = λ _. ground (arith, c.known);
                  reviewed = λ e. absurd (ground (arith, k.reviewed e, c.running, e));
                  noted = k.noted;
                })))
      ]

  pub review-DeskIsValid :
      (t : Tools) (now id : ℕ) (status : ReviewStatus) (note : String)
      → review_agent_run t now id status note d ≡ did d'
      → DeskIsValid d'
  unfolding reviewed
  review-DeskIsValid t now id status note h =
      let (r, s, w) = review-Reviews t now id status note d d' h in
      rw w.result (
        with_store-DeskIsValid s (set_run id (reviewed now status note) d)
          (follow_up-StoreIsValid t now r status _ s (report-StoreIsValid _ d v.store) w.walked)
          (set_run-DeskIsValid id r (reviewed now status note) d v w.found (λ x. refl) refl
            (λ k. record {
              allowed = k.allowed;
              class = k.class;
              completed = ground (arith, k.completed, w.decided, w.ready);
              unreviewed = λ e. absurd (ground (arith, w.decided, e));
              reviewed = λ _. refl;
              noted = λ _. w.noted;
            })))
