-- ===== src/Approvals/Outcome.antt =====
-- src/leon_control_plane/store.py: the errors that the operations on tasks and approvals raise, one
-- for each message.
use leon_ai_assistant.Base.{Bool, true, false, Option, none, some, ◌≡◌, refl, ◌⊎◌, inl, inr}

pub data Refusal : Type 0 where
  invalid_status secret_found unknown_task unknown_approval invalid_transition : Refusal
  reopen_required approval_required consumed_required other_task done_incomplete : Refusal
  reason_required note_required pending_required key_required unknown_key : Refusal
  invalid_decision already_closed other_origin not_pending summary_required : Refusal
  bad_expiry rollback_required plan_rejected names_exhausted evidence_required : Refusal
  not_consumable not_approved no_task not_waiting : Refusal
  title_required must_start_new bad_priority bad_score bad_refs unknown_parent : Refusal
  bad_completion bad_review note_missing unknown_run not_running not_completed : Refusal
  task_missing bad_runner unsafe_assignment unknown_proposal not_prepared task_closed : Refusal
  execution_denied no_queue risk_too_high policy_denied rollback_refused queue_refused id_taken :
      Refusal

pub data Outcome {ℓ} (A : Type ℓ) : Type ℓ where
  did : A → Outcome A
  refused : Refusal → Outcome A

-- `if not b: raise e`
abbrev pub require : Bool → Refusal → Outcome (Unit {0})
require b e = elim b [ false ↦ refused e | true ↦ did tt ]

-- A refusal leaves the operation at once.
infixl 5 ◌>>◌ ◌>>=◌
abbrev pub ◌>>=◌ {ℓ κ} : {X : Type ℓ} {Y : Type κ} → Outcome X → (X → Outcome Y) → Outcome Y
refused why >>= rest = refused why
did value >>= rest = rest value

abbrev pub ◌>>◌ {κ} : {Y : Type κ} → Outcome (Unit {0}) → Outcome Y → Outcome Y
checked >> rest = checked >>= λ _. rest

abbrev pub or_refuse {ℓ} : {A : Type ℓ} → Option A → Refusal → Outcome A
or_refuse none e = refused e
or_refuse (some a) e = did a

pub Outcome-cases {ℓ} :
    {A : Type ℓ} (o : Outcome A) → ((a : A) × (o ≡ did a)) ⊎ ((e : Refusal) × (o ≡ refused e))
Outcome-cases (did a) = inl (a, refl)
Outcome-cases (refused e) = inr (e, refl)

-- What a successful guard, and a successful step, went on with.
pub require-did {ℓ} :
    {B : Type ℓ} (b : Bool) (e : Refusal) {m : Outcome B} {x : B}
    → (require b e >> m) ≡ did x
    → (b ≡ true) × (m ≡ did x)
require-did true e h = (refl, h)
require-did false e h = absurd (cc h)

pub >>=-did {ℓ κ} :
    {A : Type ℓ} {B : Type κ} (m : Outcome A) {f : A → Outcome B} {x : B}
    → (m >>= f) ≡ did x
    → (a : A) × (m ≡ did a) × (f a ≡ did x)
>>=-did (did a) h = (a, refl, h)
>>=-did (refused e) h = absurd (cc h)

pub or_refuse-did {ℓ} :
    {A : Type ℓ} (o : Option A) (e : Refusal) {a : A} → or_refuse o e ≡ did a → o ≡ some a
or_refuse-did none e h = absurd (cc h)
or_refuse-did (some b) e h = cc h

pub did-pair {ℓ κ} :
    {A : Type ℓ} {B : Type κ} {a b : A} {x y : B}
    → ◌≡◌ {A = Outcome (A × B)} (did (a, x)) (did (b, y))
    → (a ≡ b) × (y ≡ x)
did-pair h = (cc h, cc h)
