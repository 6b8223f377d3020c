-- ===== src/Risk/Gates.antt =====
-- src/leon_control_plane/risk_policy.py: what a verdict of the autonomy policy lets through.
use leon_ai_assistant.Base.{
  false, true, ◌≡◌, refl, ◌⊎◌, inl, inr, Option, none, some, arith, String, str_eq, eq_iff,
  Bool-cases, ◌≢◌, ◌↔◌,
}
use leon_ai_assistant.Risk.{
  RiskClass, r1, r2, r3, r4, r5, blocked, not_approvable, required_before_action,
}
use leon_ai_assistant.Risk.Policy.{
  Call, Verdict, evaluate_action_policy, verdict, selected_class, parse_class, approval_present,
  is_hard_blocked,
}

pub evaluated :
    (c : Call) (v : Verdict)
    → evaluate_action_policy c ≡ some v
    → (class : RiskClass) × (selected_class c ≡ some class) × (v ≡ verdict c class)
unfolding evaluate_action_policy
evaluated c v h = ground arith

-- An approval that counts: explicit, or named and already consumed.
abbrev pub Approved : Call → Type 0
Approved c =
    (c.explicit_approval ≡ true)
    ⊎ ((name : String) × (c.approval_id ≡ some name)
        × (name ≢ "")
        × (c.approval_status ≡ some "consumed"))

-- What a class asks of a call before it runs without a review.
abbrev pub MayRun : Call → RiskClass → Type 0
MayRun c r1 = Unit
MayRun c r2 = Unit
MayRun c r3 = (c.metadata.tests_passed ≡ true) × (c.metadata.diff_limited ≡ true)
MayRun c r4 = Approved c
MayRun c r5 = Approved c

module _ (c : Call) where
  present→Approved :
      (i s : Option String)
      → c.approval_id ≡ i
      → c.approval_status ≡ s
      → approval_present i s c.explicit_approval ≡ true
      → Approved c
  unfolding approval_present
  present→Approved none s p q h = inl (ground arith)
  present→Approved (some i) none p q h = inl (ground arith)
  present→Approved (some i) (some s) p q h = elim (Bool-cases c.explicit_approval) [
    | inl e ↦ inl e
    | inr e ↦ inr (i, p, ground (arith, eq_iff i ""), ground (arith, eq_iff s "consumed"))
  ]

  Approved→present :
      Approved c → approval_present c.approval_id c.approval_status c.explicit_approval ≡ true
  unfolding approval_present
  Approved→present (inl e) = rw e refl
  Approved→present (inr (i, p, n, q)) = ground (arith, eq_iff i "", eq_iff "consumed" "consumed")

  allowed→MayRun :
      (class : RiskClass)
      → (verdict c class).execution_allowed ≡ true
      → (is_hard_blocked c ≡ false) × MayRun c class
  unfolding verdict
  allowed→MayRun r1 h = ground arith
  allowed→MayRun r2 h = ground arith
  allowed→MayRun r3 h = ground arith
  allowed→MayRun r4 h =
      (ground arith, present→Approved c.approval_id c.approval_status refl refl (ground arith))
  allowed→MayRun r5 h =
      (ground arith, present→Approved c.approval_id c.approval_status refl refl (ground arith))

  MayRun→allowed :
      (class : RiskClass)
      → is_hard_blocked c ≡ false
      → MayRun c class
      → (verdict c class).execution_allowed ≡ true
  unfolding verdict
  MayRun→allowed r1 h m = ground arith
  MayRun→allowed r2 h m = ground arith
  MayRun→allowed r3 h m = ground arith
  MayRun→allowed r4 h m = rw (h, Approved→present m) refl
  MayRun→allowed r5 h m = rw (h, Approved→present m) refl

risk_class-verdict : (c : Call) (class : RiskClass) → (verdict c class).risk_class ≡ class
unfolding verdict
risk_class-verdict c class = refl

-- An evaluated call may run exactly when it is not hard-blocked and meets its class: R1 and R2 ask
-- nothing, R3 passing tests and a bounded diff, R4 and R5 an explicit or a consumed approval.
pub execution_gate :
    (c : Call) (v : Verdict)
    → evaluate_action_policy c ≡ some v
    → (v.execution_allowed ≡ true) ↔ ((is_hard_blocked c ≡ false) × MayRun c v.risk_class)
execution_gate c v h =
    let (class, _, e) = evaluated c v h in
    rw (e, risk_class-verdict c class) (allowed→MayRun c class, λ m. MayRun→allowed c class m.0 m.1)

verdict_flags :
    (c : Call) (class : RiskClass)
    → ((verdict c class).approval_required ≡ true)
      ↔ ((verdict c class).approval_state ≡ required_before_action)
unfolding verdict
verdict_flags c class = ground arith

-- A verdict asks for an approval exactly when its approval state is `required_before_action`.
approval_required_iff :
    (c : Call) (v : Verdict)
    → evaluate_action_policy c ≡ some v
    → (v.approval_required ≡ true) ↔ (v.approval_state ≡ required_before_action)
approval_required_iff c v h = let (class, _, e) = evaluated c v h in rw e (verdict_flags c class)

verdict_hard :
    (c : Call) (class : RiskClass)
    → is_hard_blocked c ≡ true
    → ((verdict c class).decision ≡ blocked)
      × ((verdict c class).approval_state ≡ not_approvable)
      × ((verdict c class).approval_required ≡ false)
unfolding verdict
verdict_hard c class h = ground arith

-- A hard-blocked call is blocked, asks for no approval and is marked as not approvable, whatever
-- its class, its approvals and its test results.
hard_block_final :
    (c : Call) (v : Verdict)
    → evaluate_action_policy c ≡ some v
    → is_hard_blocked c ≡ true
    → (v.decision ≡ blocked) × (v.approval_state ≡ not_approvable) × (v.approval_required ≡ false)
hard_block_final c v h k = let (class, _, e) = evaluated c v h in rw e (verdict_hard c class k)

-- A class text that names none of the five classes, and is not empty.
abbrev pub IsUnknown : String → Type 0
IsUnknown s = (s ≢ "") × (s ≢ "R1") × (s ≢ "R2") × (s ≢ "R3") × (s ≢ "R4") × (s ≢ "R5")

parse_class-eq-none_iff : (s : String) → s ≢ "" → (parse_class s ≡ none) ↔ IsUnknown s
unfolding parse_class
parse_class-eq-none_iff s n =
    ground (arith, eq_iff s "R1", eq_iff s "R2", eq_iff s "R3", eq_iff s "R4", eq_iff s "R5")

-- Evaluation fails exactly when a class text is given that is not empty and is none of R1 to R5.
evaluate-eq-none_iff :
    (c : Call)
    → (evaluate_action_policy c ≡ none) ↔ ((s : String) × (c.risk_class ≡ some s) × IsUnknown s)
unfolding evaluate_action_policy selected_class
evaluate-eq-none_iff c = (unknown c.risk_class refl, known)
  where
    unknown :
        (o : Option String)
        → c.risk_class ≡ o
        → evaluate_action_policy c ≡ none
        → (s : String) × (c.risk_class ≡ some s) × IsUnknown s
    unknown none e h = ground arith
    unknown (some s) e h = elim (Bool-cases (str_eq s "")) [
      | inl q ↦ ground arith
      | inr q ↦
          let n : s ≢ "" = ground (arith, eq_iff s "") in
          (s, e, (parse_class-eq-none_iff s n).0 (ground arith))
    ]

    known : ((s : String) × (c.risk_class ≡ some s) × IsUnknown s) → evaluate_action_policy c ≡ none
    known (s, e, u) = ground (arith, e, eq_iff s "", (parse_class-eq-none_iff s u.0).1 u)
