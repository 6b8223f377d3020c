-- ===== src/Runs/Examples.antt =====
-- The theorems on assignments and runs at a small desk.
use leon_ai_assistant.Base.{◌⊎◌, ◌≡◌, refl, false, none, some, inl}
use leon_ai_assistant.Base.Rows.{find, update}
use leon_ai_assistant.Base.Text.{
  strip, one_of, lower, contains, contains_any, intersects, normalized,
}
use leon_ai_assistant.Approvals.{agent_run_reviewed, task_of, blank}
use leon_ai_assistant.Approvals.Outcome.{Outcome, did, refused}
use leon_ai_assistant.Risk.{
  names_any, r1_actions, r2_actions, r3_actions, r4_actions, r5_actions, read_only_actions,
  hard_block_actions, hard_block_marker, has_effects, classify, request, infer_risk_class,
}
use leon_ai_assistant.Risk.Policy.{
  evaluate_action_policy, selected_class, is_hard_blocked, decide, approval_present,
  verdict as judge,
}
use leon_ai_assistant.Runs.{
  report, parse_runner, Desk, Run, Proposal, run_of, proposal_of, local_mock, ReviewStatus,
  RunStatus, ProposalStatus, revise_output,
}
use leon_ai_assistant.Runs.Create.{create_agent_run, too_risky, gate_call, fresh_run, RunArgs}
use leon_ai_assistant.Runs.Complete.{complete_agent_run, completed}
use leon_ai_assistant.Runs.Review.{review_agent_run, follow_up, reviewed, run_summary}
use leon_ai_assistant.Runs.Assign.{
  after_check, check_apply, after_begin, begin_apply, marked, after_create, create_run_of,
  mark_applied, linked, start_work, Applied, waits_for_review, apply_agent_assignment_proposal,
  reject_agent_assignment_proposal, rejected_proposal, run_args,
}
use leon_ai_assistant.Runs.Roles.{next_action_for_review_status}
use leon_ai_assistant.Runs.Rollback.{insert_rollback_record}
use leon_ai_assistant.Runs.Invariant.{DeskIsValid}
use leon_ai_assistant.Runs.Leads.{accepted_review, Leads}
use leon_ai_assistant.Runs.Steps.{Reach, here, next, reviews, rejects, Reach-DeskIsValid}
use leon_ai_assistant.Runs.Apply.{apply-Reach}
use leon_ai_assistant.Runs.Settle.{apply_settles, Settled}
use leon_ai_assistant.Runs.Authorized.{apply_authorized, Refused, Started}
use leon_ai_assistant.Runs.Final.{Reach-final, Reach-reviewed}
use leon_ai_assistant.Runs.Samples.{tools, assignment, proposal, run, task, store, desk, texts}

desk-DeskIsValid : DeskIsValid desk
unfolding parse_runner
desk-DeskIsValid = record {
  store = record {
    task_ids = (tt, tt);
    approval_ids = tt;
    tasks = (
      record {
        result = λ e. cc;
        verified = λ e. cc;
        dated = λ e. cc;
        reason = λ e. cc;
        reviewed = λ e. cc;
      },
      tt,
    );
    approvals = tt;
  };
  proposal_ids = (tt, tt);
  run_ids = (tt, tt);
  proposals =
      (record { task = refl; runner = refl; offline = refl; secretless = refl; linked = refl }, tt);
  names = ((λ r e. absurd (cc e)), tt);
  runs = (
    record {
      allowed = refl;
      class = inl refl;
      completed = refl;
      unreviewed = λ _. refl;
      reviewed = λ e. absurd (cc e);
      noted = λ e. absurd (cc e);
    },
    tt,
  );
}

-- Proposal 7 is applied: run 4 waits for its review.
abbrev outcome : Outcome Applied × Desk
outcome = apply_agent_assignment_proposal tools 5 4 9 7 "ok" texts none desk

abbrev applied_desk : Desk
applied_desk = outcome.1

answers : outcome.0 ≡ did (waits_for_review 4)
unfolding apply_agent_assignment_proposal after_check check_apply blank strip find update
    parse_runner after_begin begin_apply marked after_create create_run_of run_args create_agent_run
    too_risky gate_call evaluate_action_policy selected_class infer_risk_class classify request
    judge is_hard_blocked hard_block_marker contains_any contains hard_block_actions r5_actions
    r4_actions r3_actions r2_actions r1_actions read_only_actions names_any has_effects one_of
    intersects normalized lower decide approval_present fresh_run insert_rollback_record
    mark_applied linked start_work complete_agent_run completed
answers = refl

to_applied : Reach desk applied_desk
to_applied =
    apply-Reach tools 5 4 9 7 "ok" texts none desk applied_desk outcome.0 desk-DeskIsValid refl

Reach-DeskIsValid_example : DeskIsValid applied_desk
Reach-DeskIsValid_example = Reach-DeskIsValid desk applied_desk desk-DeskIsValid to_applied

proposal_found : proposal_of 7 desk ≡ some proposal
unfolding find
proposal_found = refl

apply_settles_example :
    (p : Proposal) × (proposal_of 7 applied_desk ≡ some p) × Settled 4 proposal outcome.0 p
apply_settles_example =
    apply_settles tools 5 4 9 7 "ok" texts none desk applied_desk outcome.0 desk-DeskIsValid
      proposal proposal_found refl

apply_authorized_example :
    Refused tools 5 4 9 7 "ok" texts none desk applied_desk outcome.0 desk-DeskIsValid proposal
      proposal_found
    ⊎ Started tools 5 4 9 7 "ok" texts none desk applied_desk outcome.0 desk-DeskIsValid proposal
        proposal_found
apply_authorized_example =
    apply_authorized tools 5 4 9 7 "ok" texts none desk applied_desk outcome.0 desk-DeskIsValid
      proposal proposal_found refl

run_found : run_of 3 desk ≡ some run
unfolding find
run_found = refl

task_found : task_of 1 store ≡ some task
unfolding find
task_found = refl

note_given : blank "fine" ≡ false
unfolding blank strip
note_given = refl

accepted_review_example :
    (d : Desk) × (review_agent_run tools 6 3 ReviewStatus.accepted "fine" desk ≡ did d)
    × Leads 1 (run_summary tools run) (report (agent_run_reviewed 3) desk).store d.store
accepted_review_example = accepted_review tools 6 3 "fine" desk run run_found refl note_given refl

abbrev desk_after : Outcome Desk → Desk
desk_after (did d) = d
desk_after (refused e) = desk

-- Run 3 is sent back, and proposal 7 rejected.
abbrev sent_back : Desk
sent_back = desk_after (review_agent_run tools 6 3 ReviewStatus.changes_requested "again" desk)

abbrev dismissed : Desk
dismissed = desk_after (reject_agent_assignment_proposal tools 7 7 "no" sent_back)

sending_back :
    review_agent_run tools 6 3 ReviewStatus.changes_requested "again" desk ≡ did sent_back
unfolding review_agent_run blank strip find update follow_up reviewed
sending_back = refl

dismissal : reject_agent_assignment_proposal tools 7 7 "no" sent_back ≡ did dismissed
unfolding reject_agent_assignment_proposal review_agent_run blank strip find update follow_up
    reviewed
dismissal = refl

abbrev sent_run : Run
sent_run = record run {
  review_status = ReviewStatus.changes_requested;
  review_note = "again";
  next_action = revise_output;
  status = RunStatus.changes_requested;
  updated_at = 6;
}

sent_found : run_of 3 sent_back ≡ some sent_run
unfolding review_agent_run blank strip find update follow_up reviewed next_action_for_review_status
sent_found = refl

Reach-reviewed_example : run_of 3 dismissed ≡ some sent_run
Reach-reviewed_example =
    Reach-reviewed 3 sent_run sent_back dismissed
      (Reach-DeskIsValid desk sent_back desk-DeskIsValid (
        next here
          (reviews tools 6 3 ReviewStatus.changes_requested "again" sent_back sending_back)))
      sent_found refl (next here (rejects tools 7 7 "no" dismissed dismissal))

abbrev rejected_proposal_row : Proposal
rejected_proposal_row = record proposal {
  status = ProposalStatus.rejected;
  review_note = "no";
  updated_at = 7;
}

abbrev first_dismissed : Desk
first_dismissed = desk_after (reject_agent_assignment_proposal tools 7 7 "no" desk)

first_dismissal : proposal_of 7 first_dismissed ≡ some rejected_proposal_row
unfolding reject_agent_assignment_proposal blank strip find update rejected_proposal
first_dismissal = refl

abbrev later : Desk
later =
    desk_after (review_agent_run tools 8 3 ReviewStatus.changes_requested "again" first_dismissed)

later_step :
    review_agent_run tools 8 3 ReviewStatus.changes_requested "again" first_dismissed ≡ did later
unfolding reject_agent_assignment_proposal review_agent_run blank strip find update follow_up
    reviewed
later_step = refl

Reach-final_example : proposal_of 7 later ≡ some rejected_proposal_row
Reach-final_example =
    Reach-final 7 rejected_proposal_row first_dismissed later first_dismissal refl
      (next here (reviews tools 8 3 ReviewStatus.changes_requested "again" later later_step))

abbrev args : RunArgs
args = run_args 1 local_mock assignment

abbrev created : Desk
created = desk_after (create_agent_run tools 5 4 9 args desk)
