-- ===== src/Runs/Links.antt =====
-- src/leon_control_plane/store.py: the transactions of an application, against the invariant of the desk.
use leon_ai_assistant.Base.{
  ℕ, ◌≡◌, refl, subst, inl, inr, ◌&&◌, not, String, some, arith, Bool-cases, is_some,
}
use leon_ai_assistant.Runs.{Proposal, Run, Desk, run_of, proposal_of, set_proposal}
use leon_ai_assistant.Runs.Assign.{is_applying, unmarked, abandon_apply, linked, mark_applied}
use leon_ai_assistant.Runs.Invariant.{ProposalIsValid, Names, DeskIsValid}
use leon_ai_assistant.Runs.Rows.{
  report-StoreIsValid, set_proposal-DeskIsValid, update_proposals-DeskIsValid,
  with_store-DeskIsValid,
}

unmarked-ProposalIsValid :
    (now : ℕ) (p : Proposal) → ProposalIsValid p → ProposalIsValid (unmarked now p)
unfolding unmarked
unmarked-ProposalIsValid now p k =
    elim (Bool-cases (is_applying p.status && not (is_some p.applied_run))) [
      | inl e ↦ rw e (record {
        task = k.task;
        runner = k.runner;
        offline = k.offline;
        secretless = k.secretless;
        linked = ground (arith, e);
      })
      | inr e ↦ rw e k
    ]

unmarked-keeps :
    (now : ℕ) (p : Proposal)
    → ((unmarked now p).id ≡ p.id)
      × ((unmarked now p).applied_run ≡ p.applied_run)
      × ((unmarked now p).task_id ≡ p.task_id)
unfolding unmarked
unmarked-keeps now p = ground arith

pub abandon-DeskIsValid :
    (now id : ℕ) (d : Desk) → DeskIsValid d → DeskIsValid (abandon_apply now id d)
unfolding abandon_apply
abandon-DeskIsValid now id d v =
    update_proposals-DeskIsValid id (unmarked now) d v (λ x. (unmarked-keeps now x).0)
      (unmarked-ProposalIsValid now)
      (λ x h. rw ((unmarked-keeps now x).1, (unmarked-keeps now x).2) h)

linked-ProposalIsValid :
    (now run : ℕ) (note : String) (p : Proposal)
    → ProposalIsValid p
    → ProposalIsValid (linked now run note p)
unfolding linked
linked-ProposalIsValid now run note p k = elim (Bool-cases (is_applying p.status)) [
  | inl e ↦ rw e (record {
    task = k.task;
    runner = k.runner;
    offline = k.offline;
    secretless = k.secretless;
    linked = refl;
  })
  | inr e ↦ rw e k
]

linked-keeps :
    (now run : ℕ) (note : String) (p : Proposal)
    → ((linked now run note p).id ≡ p.id) × ((linked now run note p).task_id ≡ p.task_id)
unfolding linked
linked-keeps now run note p = ground arith

linked-Names :
    (now run : ℕ) (note : String) (p : Proposal) (r : Run) (d : Desk)
    → run_of run d ≡ some r
    → r.task_id ≡ p.task_id
    → Names d p
    → Names d (linked now run note p)
unfolding linked
linked-Names now run note p r d e t names = elim (Bool-cases (is_applying p.status)) [
  | inl k ↦
      rw k (λ run' a. let q : run ≡ run' = cc a in (r, subst (λ i. run_of i d ≡ some r) q e, t))
  | inr k ↦ rw k names
]

pub mark-DeskIsValid :
    (now run id : ℕ) (note : String) (p : Proposal) (r : Run) (d : Desk)
    → DeskIsValid d
    → proposal_of id d ≡ some p
    → run_of run d ≡ some r
    → r.task_id ≡ p.task_id
    → DeskIsValid (mark_applied now run id note d)
unfolding mark_applied
mark-DeskIsValid now run id note p r d v e f t =
    with_store-DeskIsValid _ (set_proposal id (linked now run note) d)
      (report-StoreIsValid _ d v.store)
      (set_proposal-DeskIsValid id p (linked now run note) d v e
        (λ x. (linked-keeps now run note x).0) (linked-ProposalIsValid now run note p)
        (linked-Names now run note p r d f t))
