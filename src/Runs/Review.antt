-- ===== src/Runs/Review.antt =====
-- src/leon_control_plane/store.py: `review_agent_run`, and how an accepted run leads its task on.
use leon_ai_assistant.Base.{
  ℕ, Bool, true, false, ◌||◌, not, String, List, [], ◌∷◌, Option, none, some, leb, if◌then◌else◌,
  map, take, length,
}
use Prim.Native.String.{len, slice, ◌++◌}
use leon_ai_assistant.Base.Text.{strip, rstrip}
use leon_ai_assistant.Db.{TaskStatus, new, planned, active, review}
use leon_ai_assistant.Approvals.{
  Store, TaskRow, task_of, set_task, record_event, blank, agent_run_reviewed, task_status_changed,
}
use leon_ai_assistant.Approvals.Outcome.{
  Outcome, did, require, or_refuse, ◌>>=◌, ◌>>◌, unknown_run, not_completed, bad_review,
  note_missing, secret_found,
}
use leon_ai_assistant.Approvals.Tasks.{Change, validate_task_transition, same}
use leon_ai_assistant.Runs.{
  Run, RunStatus, waiting_for_review, ReviewStatus, pending, accepted, changes_requested, rejected,
  Evidence, Desk, Tools, run_of, set_run, report, or_default,
}
use leon_ai_assistant.Runs.Roles.{next_action_for_review_status}
use leon_ai_assistant.Runs.Complete.{is_completion}

-- `_compact_summary`
unfoldable pub compact_summary : Tools → String → String → String
compact_summary t value fallback =
    let text = t.redact (strip (or_default value fallback)) in
    if leb (len text) 280 then text else rstrip (slice text 0 277) ++ "..."

unfoldable pub compact_evidence : Tools → Evidence → Evidence
unfolding compact_summary
compact_evidence t e = record {
  kind = compact_summary t e.kind "evidence";
  summary = compact_summary t e.summary "Evidence recorded by agent run.";
}

-- The statuses that an accepted run leads its task through.
unfoldable pub path : TaskStatus → List TaskStatus
path new = planned ∷ active ∷ review ∷ []
path planned = active ∷ review ∷ []
path active = review ∷ []
path _ = []

abbrev pub no_change : Change
no_change = record {
  blocked_reason = "";
  result = "";
  verification_note = "";
  review_note = "";
  approval_id = none;
  secret_key = none;
  reopen = false;
}

unfoldable pub advanced : ℕ → String → String → TaskStatus → TaskRow → TaskRow
advanced now summary verification to t = record t {
  status = to;
  result = if same to review then summary else t.result;
  verification_note = if same to review then verification else t.verification_note;
  updated_at = now;
}

-- The loop over the path.
unfoldable pub walk : ℕ → ℕ → String → String → TaskStatus → List TaskStatus → Store → Outcome Store
unfolding advanced
walk now id summary verification old [] s = did s
walk now id summary verification old (to ∷ rest) s = do
  validate_task_transition id old to no_change s
  walk now id summary verification to rest (
      record_event (task_status_changed id old to)
        (set_task id (advanced now summary verification to) s))

unfoldable pub run_summary : Tools → Run → String
run_summary t r =
    compact_summary t r.result_summary ("Accepted agent run " ++ t.print_id r.id ++ ".")

-- At most eight items of evidence, and none of an oversized list.
unfoldable pub run_verification : Tools → Run → String
run_verification t r =
    let oversized = not (leb (t.evidence_size r.evidence) 65536) in
    let items = if oversized then [] else map (compact_evidence t) (take 8 r.evidence) in
    t.verification r.id items (if oversized then none else some (length r.evidence))
      (oversized || not (leb (length r.evidence) (length items)))

unfoldable pub advance_row : Tools → ℕ → Run → Option TaskRow → Store → Outcome Store
unfolding walk path
advance_row t now r none s = did s
advance_row t now r (some task) s =
    walk now r.task_id (run_summary t r) (run_verification t r) task.status (path task.status) s

unfoldable pub advance_task : Tools → ℕ → Run → Store → Outcome Store
advance_task t now r s = advance_row t now r (task_of r.task_id s) s

abbrev pub after_review : ReviewStatus → RunStatus
after_review accepted = accepted
after_review changes_requested = changes_requested
after_review rejected = rejected
after_review pending = waiting_for_review

abbrev pub is_decision : ReviewStatus → Bool
is_decision pending = false
is_decision _ = true

abbrev pub is_accepted : ReviewStatus → Bool
is_accepted accepted = true
is_accepted _ = false

unfoldable pub reviewed : ℕ → ReviewStatus → String → Run → Run
unfolding next_action_for_review_status
reviewed now status note r = record r {
  review_status = status;
  review_note = note;
  next_action = next_action_for_review_status status;
  status = after_review status;
  updated_at = now;
}

unfoldable pub follow_up : Tools → ℕ → Run → ReviewStatus → Store → Outcome Store
follow_up t now r status s = if is_accepted status then advance_task t now r s else did s

unfoldable pub review_agent_run : Tools → ℕ → ℕ → ReviewStatus → String → Desk → Outcome Desk
unfolding reviewed
review_agent_run t now id status note d = do
  require (is_decision status) bad_review
  require (not (blank note)) note_missing
  require (not (t.contains_secret note)) secret_found
  r ← or_refuse (run_of id d) unknown_run
  require (is_completion r.status) not_completed
  let d' = report (agent_run_reviewed id) (set_run id (reviewed now status note) d)
  s ← follow_up t now r status d'.store
  did (record d' { store = s })
