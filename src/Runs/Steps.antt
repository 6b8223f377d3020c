-- ===== src/Runs/Steps.antt =====
-- src/leon_control_plane/store.py: any interleaving of the transactions on tasks, approvals, assignments
-- and runs. A worker that applies a proposal may stop after any of its transactions.
use leon_ai_assistant.Base.{ℕ, ◌≡◌, some, String, List}
use leon_ai_assistant.Approvals.{Store}
use leon_ai_assistant.Approvals.Acts.{Acts, Acts-StoreIsValid}
use leon_ai_assistant.Approvals.Outcome.{did}
use leon_ai_assistant.Runs.{
  Assignment, Proposal, Run, RunStatus, ReviewStatus, Evidence, Desk, Tools, run_of, proposal_of,
}
use leon_ai_assistant.Runs.Create.{RunArgs, create_agent_run}
use leon_ai_assistant.Runs.Complete.{complete_agent_run}
use leon_ai_assistant.Runs.Review.{review_agent_run}
use leon_ai_assistant.Runs.Assign.{
  create_agent_assignment_proposal, reject_agent_assignment_proposal, begin_apply, abandon_apply,
  mark_applied,
}
use leon_ai_assistant.Runs.Invariant.{DeskIsValid}
use leon_ai_assistant.Runs.Rows.{with_store, with_store-DeskIsValid}
use leon_ai_assistant.Runs.Keep.{
  propose-DeskIsValid, reject-DeskIsValid, begin-DeskIsValid, create-DeskIsValid,
  complete-DeskIsValid, review-DeskIsValid,
}
use leon_ai_assistant.Runs.Links.{abandon-DeskIsValid, mark-DeskIsValid}

pub data Step (d : Desk) : Desk → Type 0 where
  acts : (s : Store) (u : Desk) → Acts d.store s → u ≡ with_store s d → Step d u
  proposes :
      (t : Tools) (now id : ℕ) (a : Assignment) (u : Desk)
      → create_agent_assignment_proposal t now id a d ≡ did u
      → Step d u
  rejects :
      (t : Tools) (now id : ℕ) (note : String) (u : Desk)
      → reject_agent_assignment_proposal t now id note d ≡ did u
      → Step d u
  begins : (now id : ℕ) (note : String) (u : Desk) → begin_apply now note id d ≡ did u → Step d u
  abandons : (now id : ℕ) (u : Desk) → u ≡ abandon_apply now id d → Step d u
  creates :
      (t : Tools) (now id rollback : ℕ) (a : RunArgs) (u : Desk)
      → create_agent_run t now id rollback a d ≡ did u
      → Step d u
  -- The run that a worker links is one that it created for the proposal's task.
  links :
      (now run id : ℕ) (note : String) (p : Proposal) (r : Run) (u : Desk)
      → proposal_of id d ≡ some p
      → run_of run d ≡ some r
      → r.task_id ≡ p.task_id
      → u ≡ mark_applied now run id note d
      → Step d u
  completes :
      (t : Tools) (now id : ℕ) (summary : String) (evidence : List Evidence) (status : RunStatus)
      (recovery : List Evidence) (u : Desk)
      → complete_agent_run t now id summary evidence status recovery d ≡ did u
      → Step d u
  reviews :
      (t : Tools) (now id : ℕ) (status : ReviewStatus) (note : String) (u : Desk)
      → review_agent_run t now id status note d ≡ did u
      → Step d u

pub data Reach (d : Desk) : Desk → Type 0 where
  here : Reach d d
  next : {e u : Desk} → Reach d e → Step e u → Reach d u

Step-DeskIsValid : {d u : Desk} → Step d u → DeskIsValid d → DeskIsValid u
Step-DeskIsValid {d} (acts s u a e) v =
    rw e (with_store-DeskIsValid s d (Acts-StoreIsValid a v.store) v)
Step-DeskIsValid {d} (proposes t now id a u e) v = propose-DeskIsValid d u v t now id a e
Step-DeskIsValid {d} (rejects t now id note u e) v = reject-DeskIsValid d u v t now id note e
Step-DeskIsValid {d} (begins now id note u e) v = begin-DeskIsValid d u v now id note e
Step-DeskIsValid {d} (abandons now id u e) v = rw e (abandon-DeskIsValid now id d v)
Step-DeskIsValid {d} (creates t now id rollback a u e) v =
    create-DeskIsValid d u v t now id rollback a e
Step-DeskIsValid {d} (links now run id note p r u f g k e) v =
    rw e (mark-DeskIsValid now run id note p r d v f g k)
Step-DeskIsValid {d} (completes t now id summary evidence status recovery u e) v =
    complete-DeskIsValid d u v t now id summary evidence status recovery e
Step-DeskIsValid {d} (reviews t now id status note u e) v =
    review-DeskIsValid d u v t now id status note e

-- In every state that these transactions reach from a valid one, in any order: tasks and approvals are
-- valid; a proposal is for a local runner with neither outside calls nor secrets, and names a run of its
-- own task exactly when it is applied; a run was let through by the policy gate in class R1 or R2, is
-- dated exactly when it is completed, and has a review's status only with that review and a note.
pub Reach-DeskIsValid : (d u : Desk) → DeskIsValid d → Reach d u → DeskIsValid u
Reach-DeskIsValid d u v here = v
Reach-DeskIsValid d u v (next {e = m} r s) = Step-DeskIsValid s (Reach-DeskIsValid d m v r)
