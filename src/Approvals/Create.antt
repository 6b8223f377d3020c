-- ===== src/Approvals/Create.antt =====
-- src/leon_control_plane/store.py: `create_approval`. The caller's expiry is parsed: it is missing, no
-- ISO timestamp, a timestamp with no time zone, or a time.
use Prim.Native.String.{◌++◌}
use leon_ai_assistant.Base.{
  ℕ, Bool, true, ◌&&◌, ◌||◌, not, String, List, [], ◌∷◌, Option, none, some, ◌==◌, ltb, str_eq,
  is_some, if◌then◌else◌, any, length, map, suc,
}
use leon_ai_assistant.Base.Text.{strip, normalized, lower, contains_any}
use leon_ai_assistant.Base.Rows.{find}
use leon_ai_assistant.Approvals.{
  Approval, Plan, pending, Store, Env, approval_created, task_of, record_event, is_rejected,
}
use leon_ai_assistant.Approvals.Outcome.{
  Outcome, did, refused, require, or_refuse, ◌>>=◌, ◌>>◌, secret_found, unknown_task,
  summary_required, bad_expiry, rollback_required, plan_rejected, names_exhausted,
}
use leon_ai_assistant.Approvals.Names.{free_name}

pub data Expiry : Type 0 where
  never unparsable naive : Expiry
  at : ℕ → Expiry

-- `_risk_class_from_level`
unfoldable pub risk_class_from_level : String → String
unfolding normalized
risk_class_from_level level =
    let n = normalized level in
    if str_eq n "low"
    then "R1"
    else if str_eq n "medium"
    then "R2"
    else if str_eq n "high"
    then "R4"
    else "R3"

abbrev markers : List String
markers =
    "external_write" ∷ "install" ∷ "connect" ∷ "spend" ∷ "payment" ∷ "delete" ∷ "destructive" ∷ []

unfoldable pub class_of : Plan → String
unfolding risk_class_from_level
class_of p =
    if not (str_eq (strip p.risk_class) "")
    then strip p.risk_class
    else if contains_any (lower (p.action_type ++ (" " ++ p.external_effect))) markers
    then "R4"
    else risk_class_from_level p.risk_level

abbrev pub or_text : String → String → String
or_text given other = if str_eq given "" then other else given

abbrev default_failure : String
default_failure = "If this fails or is rejected, no action runs until a changed plan is reviewed."

-- The plan as it is stored.
unfoldable pub completed : Plan → Plan
unfolding class_of
completed p = record p {
  summary = strip p.summary;
  reason = strip p.reason;
  risk_class = class_of p;
  expected_change = or_text (strip p.expected_change) (strip p.summary);
  rollback_plan = strip p.rollback_plan;
  failure_mode = or_text (strip p.failure_mode) default_failure;
}

-- `_approval_plan_fingerprint`: of the plan with every text stripped
unfoldable pub fingerprint : Env → Plan → ℕ
fingerprint env p = env.fingerprint_of (record {
  action_type = strip p.action_type;
  summary = strip p.summary;
  reason = strip p.reason;
  affected_systems = strip p.affected_systems;
  permissions = strip p.permissions;
  external_effect = strip p.external_effect;
  cost_estimate = strip p.cost_estimate;
  risk_level = strip p.risk_level;
  risk_class = strip p.risk_class;
  expected_change = strip p.expected_change;
  rollback_plan = strip p.rollback_plan;
  failure_mode = strip p.failure_mode;
})

abbrev pub is_risky : String → Bool
is_risky c = str_eq c "R3" || str_eq c "R4" || str_eq c "R5"

abbrev pub checked_texts : Plan → String → List String
checked_texts p requested_by =
    p.summary ∷ p.reason ∷ p.affected_systems ∷ p.permissions ∷ p.external_effect ∷ p.cost_estimate
    ∷ p.risk_class ∷ p.expected_change ∷ p.rollback_plan ∷ p.failure_mode ∷ requested_by ∷ []

-- The expiry to store, where it is in the future.
unfoldable pub parse_expiry : ℕ → Expiry → Outcome (Option ℕ)
parse_expiry now never = did none
parse_expiry now unparsable = refused bad_expiry
parse_expiry now naive = refused bad_expiry
parse_expiry now (at t) = if ltb now t then did (some t) else refused bad_expiry

unfoldable pub known_task : Option ℕ → Store → Bool
known_task none s = true
known_task (some t) s = is_some (task_of t s)

-- `SELECT id FROM approvals WHERE status = 'rejected' AND plan_fingerprint = ?`
unfoldable pub rejected_before : ℕ → Store → Bool
rejected_before f s =
    is_some (find (λ (a : Approval). is_rejected a.status && a.fingerprint == f) s.approvals)

abbrev pub ids : Store → List ℕ
ids s = map (λ (a : Approval). a.id) s.approvals

unfoldable pub fresh : Env → ℕ → ℕ → Option ℕ → Plan → Option ℕ → String → Approval
fresh env now id task p expires requested_by = record {
  id = id;
  task_id = task;
  plan = p;
  fingerprint = fingerprint env p;
  requested_by = requested_by;
  status = pending;
  decision_note = "";
  decided_at = none;
  consumed_at = none;
  expires_at = expires;
  created_at = now;
  updated_at = now;
}

-- The part after the defaults are filled in: the new id and the new store.
unfoldable pub store_approval :
    Env → (ℕ → ℕ) → ℕ → Option ℕ → Plan → Expiry → String → Store → Outcome (ℕ × Store)
store_approval env candidate now task p expiry requested_by s = do
  require (not (str_eq p.summary "") && not (str_eq p.reason "")) summary_required
  expires ← parse_expiry now expiry
  require (not (is_risky p.risk_class && str_eq p.rollback_plan "")) rollback_required
  require (not (any env.contains_secret (checked_texts p requested_by))) secret_found
  require (known_task task s) unknown_task
  require (not (rejected_before (fingerprint env p) s)) plan_rejected
  id ←
      or_refuse (free_name (λ x. any (λ y. y == x) (ids s)) candidate (suc (length s.approvals)) 0)
        names_exhausted
  did (
    id,
    record_event (approval_created id)
        (record s { approvals = fresh env now id task p expires requested_by ∷ s.approvals }),
  )

unfoldable pub create_approval :
    Env → (ℕ → ℕ) → ℕ → Option ℕ → Plan → Expiry → String → Store → Outcome (ℕ × Store)
create_approval env candidate now task plan expiry requested_by s =
    store_approval env candidate now task (completed plan) expiry requested_by s
