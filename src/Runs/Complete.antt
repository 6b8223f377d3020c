-- ===== src/Runs/Complete.antt =====
-- src/leon_control_plane/store.py: `complete_agent_run`, with the suggestions for a failed run.
use leon_ai_assistant.Base.{
  ℕ, Bool, true, false, String, List, [], ◌∷◌, some, if◌then◌else◌, map, take,
}
use Prim.Native.String.{◌++◌}
use leon_ai_assistant.Base.Text.{strip}
use leon_ai_assistant.Approvals.{blank, agent_run_completed}
use leon_ai_assistant.Approvals.Outcome.{
  Outcome, did, refused, require, or_refuse, ◌>>=◌, ◌>>◌, unknown_run, not_running, bad_completion,
}
use leon_ai_assistant.Runs.{
  Run, RunStatus, running, waiting_for_review, failed, accepted, changes_requested, rejected,
  review_run, Evidence, Desk, Tools, run_of, set_run, report, redact_evidence, or_default,
}

abbrev pub same_status : RunStatus → RunStatus → Bool
same_status running running = true
same_status waiting_for_review waiting_for_review = true
same_status failed failed = true
same_status accepted accepted = true
same_status changes_requested changes_requested = true
same_status rejected rejected = true
same_status _ _ = false

abbrev pub is_completion : RunStatus → Bool
is_completion waiting_for_review = true
is_completion failed = true
is_completion _ = false

-- The suggestions with a summary, at most six; or one that is made from the reason.
unfoldable pub summarized : Tools → List Evidence → List Evidence
summarized t [] = []
summarized t (e ∷ rest) =
    let others = summarized t rest in
    if blank e.summary
    then others
    else record {
      kind = t.redact (or_default (strip (or_default e.kind "review_failure")) "review_failure");
      summary = t.redact (strip e.summary);
    }
      ∷ others

unfoldable pub normalize_recovery : Tools → List Evidence → String → List Evidence
unfolding summarized
normalize_recovery t given reason = elim (take 6 (summarized t given)) [
  | [] ↦
      record {
        kind = "review_failure_log";
        summary =
            "Inspect the failed run evidence and audit event: "
            ++ t.redact (
                or_default reason
                  "The autonomous task failed before producing a reviewable result.");
      }
      ∷ record {
        kind = "retry_after_scope_fix";
        summary =
            "Retry only after narrowing scope, fixing the reported blocker, or moving the work behind approval.";
      }
      ∷ record {
        kind = "use_rollback_record";
        summary =
            "Use the attached rollback status or registry record to delete temporary output or undo local changes before retrying.";
      }
      ∷ []
  | s ∷ rest ↦ s ∷ rest
]

unfoldable pub completed :
    Tools → ℕ → RunStatus → String → List Evidence → List Evidence → Run → Run
unfolding normalize_recovery
completed t now status summary evidence recovery r = record r {
  status = status;
  result_summary = t.redact summary;
  evidence = map (redact_evidence t) evidence;
  confidence = if same_status status waiting_for_review then 72 else 20;
  recovery =
      if same_status status failed then normalize_recovery t recovery (t.redact summary) else [];
  next_action = review_run;
  updated_at = now;
  completed_at = some now;
}

-- A repeated completion with the same status changes nothing.
unfoldable pub complete_agent_run :
    Tools → ℕ → ℕ → String → List Evidence → RunStatus → List Evidence → Desk → Outcome Desk
unfolding completed
complete_agent_run t now id summary evidence status recovery d = do
  require (is_completion status) bad_completion
  r ← or_refuse (run_of id d) unknown_run
  if same_status r.status running
      then did (
          report (agent_run_completed id)
            (set_run id (completed t now status summary evidence recovery) d))
      else if same_status r.status status
      then did d
      else refused not_running
