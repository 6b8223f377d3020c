-- ===== src/Model/Price.antt =====
-- src/leon_control_plane/openai_text.py, src/leon_control_plane/model_work.py: what an approved request costs.
use Prim.Native.String.{len}
use leon_ai_assistant.Base.{ℕ, ◌+◌, ◌*◌, ◌≤◌, ◌<◌, ◌≡◌, arith, Bool, inl, inr, true, String}
use leon_ai_assistant.Db.{Approved, Payload, ok, openai, ollama, Result-cases}
use leon_ai_assistant.Model.{
  Env, LocalConfig, Details, cost_microusd, reservation, prepare, route, request_payload,
  local_request_payload, check_text,
}

-- Rounding up, the accounted cost covers the exact price and exceeds it by less than a micro-dollar.
cost_microusd_bounds :
    (i o : ℕ)
    → (i * 250 + o * 1200 ≤ cost_microusd i o * 1000)
      × (cost_microusd i o * 1000 < i * 250 + o * 1200 + 1000)
unfolding cost_microusd
cost_microusd_bounds i o = omega arith

-- More tokens never cost less.
pub cost_microusd_mono : (i j o p : ℕ) → i ≤ j → o ≤ p → cost_microusd i o ≤ cost_microusd j p
unfolding cost_microusd
cost_microusd_mono i j o p h k = omega arith

-- The money to hold for a payload: none for the local model.
abbrev pub hold_of : Payload → ℕ
hold_of p = elim p.provider [ ollama ↦ 0 | openai ↦ reservation p ]

-- The text and token limits of a payload.
pub record InLimits (p : Payload) : Type 0 where
  pub text : len p.input ≤ 4096
  pub at_least_one : 1 ≤ p.max_output_tokens
  pub tokens : p.max_output_tokens ≤ 1024

module _ (env : Env) (prompt : String) (limit : ℕ) where
  check_text-limits :
      (u : Unit)
      → check_text env prompt limit ≡ ok u
      → (len prompt ≤ 4096) × (1 ≤ limit) × (limit ≤ 1024)
  unfolding check_text
  check_text-limits u h = ground arith

  request_payload-limits :
      (p : Payload)
      → request_payload env prompt limit ≡ ok p
      → InLimits p × (hold_of p ≡ reservation p)
  unfolding request_payload
  request_payload-limits p h = elim (Result-cases (check_text env prompt limit)) [
    | inl (u, e) ↦ ground (arith, check_text-limits u e)
    | inr (f, e) ↦ ground arith
  ]

  local_request_payload-limits :
      (c : LocalConfig) (p : Payload)
      → local_request_payload env prompt limit c ≡ ok p
      → InLimits p × (hold_of p ≡ 0)
  unfolding local_request_payload
  local_request_payload-limits c p h = elim (Result-cases (check_text env prompt limit)) [
    | inl (u, e) ↦ ground (arith, check_text-limits u e)
    | inr (f, e) ↦ ground arith
  ]

route-limits :
    (env : Env) (local : LocalConfig) (busy : Bool) (d : Details) (p : Payload) (hold : ℕ)
    → route env local busy d ≡ ok (p, hold)
    → InLimits p × (hold_of p ≡ hold)
unfolding route
route-limits env local busy d p hold h = ground (
  arith,
  request_payload-limits env d.prompt d.max_output_tokens p,
  local_request_payload-limits env d.prompt d.max_output_tokens local p,
)

-- A request that `prepare` approves holds at most 4096 bytes of text and asks for 1 to 1024 tokens;
-- its cost cap is at most a dollar and covers the money to hold for it.
pub prepare_bounds :
    (env : Env) (local : LocalConfig) (busy : Bool) (d : Details) (a : Approved)
    → prepare env local busy d ≡ ok a
    → InLimits a.payload
      × (a.max_cost_microusd ≤ 1000000)
      × (hold_of a.payload ≤ a.max_cost_microusd)
      × (d.approve_external_text ≡ true)
unfolding prepare
prepare_bounds env local busy d a h = elim (Result-cases (route env local busy d)) [
  | inl ((p, hold), e) ↦ ground (arith, route-limits env local busy d p hold e)
  | inr (f, e) ↦ ground arith
]
