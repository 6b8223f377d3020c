-- ===== src/Audit.antt =====
-- src/leon_control_plane/store.py: the hash chain of the audit log. `Tools` holds what the chain treats
-- as opaque: SHA-256 of an event's JSON, the redaction of a text and the payload that is built.
-- The table is a list, the event with the greatest sequence first.
pub mod Chain
mod Examples
use leon_ai_assistant.Base.{
  ℕ, ◌+◌, Bool, true, false, ◌&&◌, ◌||◌, not, String, List, [], ◌∷◌, ◌++◌, Option, none, some,
  str_eq, if◌then◌else◌,
}

pub record Body : Type 0 where
  pub id : ℕ
  pub sequence : ℕ
  pub timestamp : ℕ
  pub actor_type : String
  pub actor_id : String
  pub event_type : String
  pub task_id : Option String
  pub approval_id : Option String
  pub risk_level : String
  pub summary : String
  pub evidence : String
  pub payload : String
  pub prev_hash : String

pub record Row : Type 0 where
  pub body : Body
  pub event_hash : String

-- The caller's arguments.
pub record Draft : Type 0 where
  pub actor_type : String
  pub actor_id : String
  pub event_type : String
  pub summary : String
  pub task_id : Option String
  pub approval_id : Option String
  pub risk_level : String
  pub evidence : String
  pub details : String

pub record Tools : Type 0 where
  pub digest : Body → String
  pub redact : String → String
  pub payload : Draft → ℕ → String

abbrev pub genesis : String
genesis = "GENESIS"

unfoldable pub next_sequence : List Row → ℕ
next_sequence [] = 1
next_sequence (r ∷ log) = r.body.sequence + 1

unfoldable pub last_hash : List Row → String
last_hash [] = genesis
last_hash (r ∷ log) = r.event_hash

-- `redact_audit_text(x) if x else None`
abbrev redacted : Tools → Option String → Option String
redacted t none = none
redacted t (some x) = if str_eq x "" then none else some (t.redact x)

-- The draft as it is recorded.
unfoldable pub cleaned : Tools → Draft → Draft
cleaned t d = record d {
  actor_type = t.redact d.actor_type;
  actor_id = t.redact d.actor_id;
  task_id = redacted t d.task_id;
  approval_id = redacted t d.approval_id;
  summary = t.redact d.summary;
  evidence = t.redact d.evidence;
}

unfoldable pub drafted : Tools → ℕ → ℕ → Draft → List Row → Body
unfolding next_sequence last_hash
drafted t id now d log = record {
  id = id;
  sequence = next_sequence log;
  timestamp = now;
  actor_type = d.actor_type;
  actor_id = d.actor_id;
  event_type = d.event_type;
  task_id = d.task_id;
  approval_id = d.approval_id;
  risk_level = d.risk_level;
  summary = d.summary;
  evidence = d.evidence;
  payload = t.payload d now;
  prev_hash = last_hash log;
}

unfoldable pub append_audit_event : Tools → ℕ → ℕ → Draft → List Row → List Row
unfolding cleaned drafted
append_audit_event t id now d log =
    let body = drafted t id now (cleaned t d) log in
    record { body = body; event_hash = t.digest body } ∷ log

-- ORDER BY sequence
unfoldable pub in_order : List Row → List Row
in_order [] = []
in_order (r ∷ log) = in_order log ++ (r ∷ [])

abbrev pub links : Tools → String → Row → Bool
links t previous r = str_eq r.body.prev_hash previous && str_eq r.event_hash (t.digest r.body)

-- The loop of `validate_audit_hash_chain`.
unfoldable pub check_chain : Tools → String → List Row → Bool
check_chain t previous [] = true
check_chain t previous (r ∷ rows) =
    if not (links t previous r) then false else check_chain t r.event_hash rows

unfoldable pub validate_audit_hash_chain : Tools → List Row → Bool
unfolding check_chain in_order
validate_audit_hash_chain t log = check_chain t genesis (in_order log)
