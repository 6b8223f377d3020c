-- ===== src/Model/Spending.antt =====
-- src/leon_control_plane/model_work.py: when `_begin` sends, and what that does to the ledger.
use leon_ai_assistant.Base.{
  ℕ, ◌≤◌, ◌≡◌, ◌⊎◌, inl, inr, true, false, not, ◌&&◌, none, some, arith, Bool-cases, Option-cases,
}
use leon_ai_assistant.Db.{
  Db, Job, ModelRow, unknown, ok, Result-cases, job_of, model_of, set_model, log, model_unknown,
  is_local, WorkerResult,
}
use leon_ai_assistant.Model.{Env, OpenAiConfig, LocalConfig, reservation}
use leon_ai_assistant.Work.{model_eligible}
use leon_ai_assistant.Work.Claim.{Claim}
use leon_ai_assistant.Work.Checkpoints.{owns}
use leon_ai_assistant.Model.Ledger.{
  Begun, send, cached, begin, unanswered, authorize, sending_db, validated, expected, hold_for,
  affordable, is_pending, unknown_result,
}

module _ (env : Env) (config : OpenAiConfig) (local : LocalConfig) (now : ℕ) (c : Claim)
    (db : Db) where
  -- What a send rests on: the worker's lease, a request with no answer that is not already on its
  -- way, an eligible task, the approved cap and, for a paid request, both budgets.
  pub record Sends (row : Job) (m : ModelRow) (db' : Db) : Type 0 where
    pub job_row : job_of c.id db ≡ some row
    pub model_row : model_of row.id db ≡ some m
    pub owner : owns now c row ≡ true
    pub unanswered : m.result ≡ none
    pub intact : env.digest m.request ≡ m.digest
    pub eligible : model_eligible row.task_id (some row.id) db ≡ true
    pub capped : hold_for m.request.payload ≤ m.request.max_cost_microusd
    pub unsent : is_local m.request.payload ≡ false → is_pending m.state ≡ false
    pub in_budget :
        is_local m.request.payload ≡ false
        → affordable config now (reservation m.request.payload) db ≡ true
    pub result : db' ≡ sending_db env config local now c row m.request.payload db

  authorize-cases :
      (row : Job) (m : ModelRow) (b : Begun) (db' : Db)
      → authorize env config local now c row m db ≡ ok (b, db')
      → (b ≡ send m.request.payload)
        × (db' ≡ sending_db env config local now c row m.request.payload db)
        × (model_eligible row.task_id (some row.id) db ≡ true)
        × (hold_for m.request.payload ≤ m.request.max_cost_microusd)
        × (is_local m.request.payload ≡ false
            → affordable config now (reservation m.request.payload) db ≡ true)
  unfolding authorize
  authorize-cases row m b db' h =
      elim (Result-cases (validated env config local m.request.payload)) [
        | inr (f, e) ↦ absurd (ground (arith, e))
        | inl (u, e) ↦ elim (Result-cases (expected env config local m.request.payload)) [
          | inr (f, p) ↦ absurd (ground (arith, e, p))
          | inl (q, p) ↦ (
            ground (arith, e, p),
            ground (arith, e, p),
            ground (arith, e, p),
            ground (arith, e, p),
            λ paid. ground (arith, e, p, paid),
          )
        ]
      ]

  unanswered-cases :
      (row : Job) (m : ModelRow) (b : Begun) (db' : Db)
      → unanswered env config local now c row m db ≡ ok (b, db')
      → ((b ≡ cached unknown_result)
          × (db'
              ≡ log
                  (model_unknown row.id)
                  (set_model row.id (λ n. record n { state = unknown }) db))
          × (is_pending m.state ≡ true)
          × (is_local m.request.payload ≡ false))
        ⊎ ((authorize env config local now c row m db ≡ ok (b, db'))
            × (env.digest m.request ≡ m.digest)
            × (is_local m.request.payload ≡ false → is_pending m.state ≡ false))
  unfolding unanswered
  unanswered-cases row m b db' h =
      elim (Bool-cases (is_pending m.state && not (is_local m.request.payload))) [
        | inl e ↦ inl (ground (arith, e), ground (arith, e), ground (arith, e), ground (arith, e))
        | inr e ↦ inr (ground (arith, e), ground (arith, e), λ paid. ground (arith, e, paid))
      ]

  -- The three ways in which `_begin` succeeds: it returns what is stored and changes nothing; it
  -- marks a paid request that is on its way as unknown; or it sends.
  pub data Begins (b : Begun) (db' : Db) : Type 0 where
    stored : (r : WorkerResult) → b ≡ cached r → db' ≡ db → Begins b db'
    lost :
        (row : Job) (m : ModelRow)
        → model_of row.id db ≡ some m
        → is_pending m.state ≡ true
        → is_local m.request.payload ≡ false
        → b ≡ cached unknown_result
        → db' ≡ log (model_unknown row.id) (set_model row.id (λ n. record n { state = unknown }) db)
        → Begins b db'
    sends : (row : Job) (m : ModelRow) → b ≡ send m.request.payload → Sends row m db' → Begins b db'

  from_unanswered :
      (row : Job) (m : ModelRow) (b : Begun) (db' : Db)
      → job_of c.id db ≡ some row
      → owns now c row ≡ true
      → model_of row.id db ≡ some m
      → m.result ≡ none
      → unanswered env config local now c row m db ≡ ok (b, db')
      → Begins b db'
  from_unanswered row m b db' j o e n h = elim (unanswered-cases row m b db' h) [
    | inl (p, q, s, t) ↦ lost row m e s t p q
    | inr (a, d, u) ↦
        let (p, q, el, cap, budget) = authorize-cases row m b db' a in
        sends row m p (record {
          job_row = j;
          model_row = e;
          owner = o;
          unanswered = n;
          intact = d;
          eligible = el;
          capped = cap;
          unsent = u;
          in_budget = budget;
          result = q;
        })
  ]

  -- Whenever `_begin` succeeds it does so in one of three ways, the third of which needs all that
  -- `Sends` lists.
  pub begin-cases :
      (b : Begun) (db' : Db) → begin env config local now c db ≡ ok (b, db') → Begins b db'
  unfolding begin
  begin-cases b db' h = elim (Option-cases (job_of c.id db)) [
    | inl e ↦ absurd (ground (arith, e))
    | inr (row, e) ↦ elim (Bool-cases (owns now c row)) [
      | inr o ↦ absurd (ground (arith, e, o))
      | inl o ↦ elim (Option-cases (model_of row.id db)) [
        | inl n ↦ absurd (ground (arith, e, o, n))
        | inr (m, n) ↦ elim (Option-cases m.result) [
          | inr (r, k) ↦ stored r (ground (arith, e, o, n, k)) (ground (arith, e, o, n, k))
          | inl k ↦ from_unanswered row m b db' e o n k (ground (arith, e, o, n, k))
        ]
      ]
    ]
  ]
