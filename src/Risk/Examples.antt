-- ===== src/Risk/Examples.antt =====
-- The theorems on the autonomy policy at calls of it, and tests.
use leon_ai_assistant.Base.{◌≡◌, ◌↔◌, refl, true, false, some, []}
use leon_ai_assistant.Base.Text.{contains, contains_any, one_of, intersects, normalized}
use leon_ai_assistant.Risk.{
  r1, r5, Request, classify, names_any, has_effects, hard_block_marker, hard_block_actions,
  r5_actions, r4_actions, r3_actions, r2_actions, r1_actions, read_only_actions,
}
use leon_ai_assistant.Risk.Policy.{
  Call, evaluate_action_policy, selected_class, parse_class, verdict, action_call,
  hard_blocked_call, is_hard_blocked,
}
use leon_ai_assistant.Risk.Gates.{execution_gate, MayRun}

-- Spending money under a consumed approval.
abbrev purchase : Call
purchase = record (action_call "spend_money") {
  risk_class = some "R5";
  approval_id = some "a1";
  approval_status = some "consumed";
}

abbrev abuse : Call
abuse = record (hard_blocked_call "unsafe_abuse") { risk_class = some "R1" }

purchase_class : evaluate_action_policy purchase ≡ some (verdict purchase r5)
unfolding evaluate_action_policy selected_class parse_class
purchase_class = refl

abuse_class : evaluate_action_policy abuse ≡ some (verdict abuse r1)
unfolding evaluate_action_policy selected_class parse_class
abuse_class = refl

abuse_blocked : is_hard_blocked abuse ≡ true
unfolding is_hard_blocked hard_block_marker hard_block_actions contains_any normalized
abuse_blocked = refl

execution_gate_example :
    ((verdict purchase r5).execution_allowed ≡ true)
    ↔ ((is_hard_blocked purchase ≡ false) × MayRun purchase (verdict purchase r5).risk_class)
execution_gate_example = execution_gate purchase (verdict purchase r5) purchase_class

abbrev reading : Request
reading = record {
  action = "read";
  scope = "memory:";
  allowed = [];
  effects = [];
  source = "";
  resource = "";
  cost = "";
}

reading_class : classify reading ≡ r1
unfolding classify names_any has_effects hard_block_marker r5_actions r4_actions r3_actions
    r2_actions r1_actions read_only_actions hard_block_actions contains_any one_of intersects
    contains
reading_class = refl
