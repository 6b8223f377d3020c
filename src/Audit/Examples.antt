-- ===== src/Audit/Examples.antt =====
-- The theorems on the audit chain at a short log.
use leon_ai_assistant.Base.{◌≡◌, refl, true, none, some, List, []}
use leon_ai_assistant.Audit.{Row, Draft, Tools, append_audit_event, validate_audit_hash_chain}
use leon_ai_assistant.Audit.Chain.{IsOrdered, append_audit_event-valid, last_hash_commits}

abbrev tools : Tools
tools = record { digest = λ b. "hash"; redact = λ x. x; payload = λ d now. "{}" }

abbrev draft : Draft
draft = record {
  actor_type = "user";
  actor_id = "dashboard";
  event_type = "task_reopened";
  summary = "Reopened";
  task_id = some "task-a";
  approval_id = none;
  risk_level = "low";
  evidence = "";
  details = "{}";
}

append_audit_event-valid_example :
    IsOrdered (append_audit_event tools 1 10 draft [])
    × (validate_audit_hash_chain tools (append_audit_event tools 1 10 draft []) ≡ true)
unfolding validate_audit_hash_chain
append_audit_event-valid_example = append_audit_event-valid tools 1 10 draft [] tt refl

-- A log with one event, and itself.
abbrev log : List Row
log = append_audit_event tools 1 10 draft []

log_valid : validate_audit_hash_chain tools log ≡ true
unfolding append_audit_event validate_audit_hash_chain
log_valid = refl

last_hash_commits_example : log ≡ log
unfolding append_audit_event
last_hash_commits_example =
    last_hash_commits tools log log ((λ e. refl, tt), tt) ((λ e. cc e), tt) ((λ e. cc e), tt)
      log_valid log_valid refl
