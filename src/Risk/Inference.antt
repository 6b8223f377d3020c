-- ===== src/Risk/Inference.antt =====
-- src/leon_control_plane/risk_policy.py: how low a class `infer_risk_class` may give, and the ladder of
-- `classify_request_policy`.
use leon_ai_assistant.Base.{
  Bool, false, true, ◌≡◌, refl, ◌∙◌, none, some, arith, String, List, [], ◌∷◌, ◌≢◌, str_eq, eq_iff,
  ◌||◌, ◌&&◌, not,
}
use leon_ai_assistant.Base.Text.{contains_any, one_of, normalized, lower, intersects}
use leon_ai_assistant.Risk.{
  r4, r5, Request, classify, names_any, has_effects, r5_actions, r4_actions, r3_actions, r2_actions,
  r1_actions, read_only_actions, hard_block_actions, hard_block_marker, infer_risk_class, request,
}
use leon_ai_assistant.Risk.Policy.{
  Call, Verdict, classify_request_policy, request_call, evaluate_action_policy, verdict,
  selected_class, approval_present, is_hard_blocked, action_call, hard_blocked_call,
}

-- No sign of an external, costly or secret-touching action.
pub record IsLocal (q : Request) : Type 0 where
  pub unmarked : hard_block_marker q.action q.scope ≡ false
  pub no_r5 : names_any q r5_actions ≡ false
  pub no_r4 : names_any q r4_actions ≡ false
  pub contained : has_effects q ≡ true → one_of q.action read_only_actions ≡ true

read-read_only : (a : String) → str_eq a "read" ≡ true → one_of a read_only_actions ≡ true
unfolding one_of read_only_actions
read-read_only a h = ground (arith, eq_iff a "read", eq_iff "read" a)

-- A request that is classed below R4 names no R4 or R5 action, holds no hard-block marker, and has
-- external effects only if its action is read-only.
pub classify-IsLocal : (q : Request) → classify q ≢ r4 → classify q ≢ r5 → IsLocal q
unfolding classify
classify-IsLocal q h k = ground (arith, read-read_only q.action)

-- The signals and words that keep a chat request from running.
abbrev pub is_risky : List String → String → Bool
is_risky signals text =
    one_of "refuse_unsafe" signals
    || one_of "money_or_purchase" signals
    || one_of "install_or_infra" signals
    || contains_any (lower text) ("api key" ∷ "secret" ∷ "password" ∷ "wachtwoord" ∷ [])
    || one_of "external_write" signals

abbrev pub is_plain_route : String → Bool
is_plain_route route =
    str_eq route "task_queue"
    || str_eq route "memory_retrieval"
    || str_eq route "research_agent"
    || str_eq route "quick_tool_use"

permits : Call → Bool
permits c = elim (evaluate_action_policy c) [ none ↦ false | some v ↦ v.execution_allowed ]

-- A call with no class text is given a verdict.
evaluate_total :
    (c : Call)
    → c.risk_class ≡ none
    → (v : Verdict) × (evaluate_action_policy c ≡ some v) × (v.execution_allowed ≡ permits c)
unfolding evaluate_action_policy selected_class permits
evaluate_total c h = (
  verdict c (infer_risk_class c.action_type c.requested_scope c.metadata),
  ground arith,
  ground arith,
)

risk_class-request_call :
    (route : String) (signals : List String) (text : String)
    → (request_call route signals text).risk_class ≡ none
unfolding request_call
risk_class-request_call route signals text = ground arith

-- `permits`, with all that a test of it computes.
runs : Call → Bool
unfolding permits evaluate_action_policy selected_class infer_risk_class request classify names_any
    has_effects hard_block_marker r5_actions r4_actions r3_actions r2_actions r1_actions
    read_only_actions hard_block_actions verdict is_hard_blocked approval_present contains_any
    one_of intersects normalized
runs = permits

abbrev RunsAs : String → Bool → Type 0
RunsAs action b = permits (action_call action) ≡ b

risky_actions :
    RunsAs "spend_money" false
    × RunsAs "install" false
    × RunsAs "secret_change" false
    × RunsAs "external_write" false
    × RunsAs "write_code" false
unfolding runs
risky_actions = (refl, refl, refl, refl, refl)

plain_actions :
    RunsAs "memory_retrieval" true
    × RunsAs "web_research" true
    × RunsAs "status_check" true
    × RunsAs "direct_answer" true
unfolding runs
plain_actions = (refl, refl, refl, refl)

special_calls :
    (permits (hard_blocked_call "unsafe_abuse") ≡ false)
    × (permits (record (action_call "task_create") { requested_scope = "task:queue" }) ≡ true)
unfolding runs
special_calls = (refl, refl)

permits-request_call :
    (route : String) (signals : List String) (text : String)
    → permits (request_call route signals text)
      ≡ (not (is_risky signals text) && (is_plain_route route || not (one_of "coding" signals)))
unfolding request_call
permits-request_call route signals text =
    ground (arith, risky_actions, plain_actions, special_calls)

-- A chat request is always given a verdict, which lets it run exactly when it has no risky signal or
-- word, and its route is a plain one or it has no `coding` signal.
classify_request_lem :
    (route : String) (signals : List String) (text : String)
    → (v : Verdict) × (classify_request_policy route signals text ≡ some v)
      × (v.execution_allowed ≡ (
          not (is_risky signals text) && (is_plain_route route || not (one_of "coding" signals))))
unfolding classify_request_policy
classify_request_lem route signals text =
    let (v, e, p) =
      evaluate_total (request_call route signals text)
        (risk_class-request_call route signals text) in
    (v, e, p ∙ permits-request_call route signals text)
