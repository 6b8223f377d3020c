-- ===== src/Model/Budget.antt =====
-- src/leon_control_plane/model_work.py: the ledger and the configured budgets.
use leon_ai_assistant.Base.{
  ℕ, ◌+◌, ◌≤◌, ◌≡◌, inl, inr, ◌≢◌, true, false, some, none, arith, Bool-cases, List, ◌==◌,
}
use native.Mathlib.Nat.{le_refl}
use leon_ai_assistant.Base.Rows.{total, update, find-All}
use leon_ai_assistant.Base.Keys.{total-update}
use leon_ai_assistant.Db.{
  Db, Job, ModelRow, approved, unknown, reconciled, ok, WorkerResult, model_of, is_local, Payload,
  Event,
}
use leon_ai_assistant.Model.{Env, OpenAiConfig, LocalConfig}
use leon_ai_assistant.Work.Claim.{Claim}
use leon_ai_assistant.Model.Ledger.{
  Begun, send, begin, finish, is_pending, spent, spent_since, day_start, hold_for, affordable,
  to_send, recorded,
}
use leon_ai_assistant.Model.Spending.{Sends, Begins, stored, lost, sends, begin-cases}
use leon_ai_assistant.Model.Once.{finish-cases}
use leon_ai_assistant.Model.Rows.{LedgerIsValid, RowIsValid, Affords}

-- The row that `model_of` finds in a valid ledger.
pub row_of :
    (id : ℕ) (db : Db) (m : ModelRow)
    → LedgerIsValid db
    → model_of id db ≡ some m
    → RowIsValid db.audit m
row_of id db m v e =
    find-All (λ (n : ModelRow). n.job_id == id) (RowIsValid db.audit) db.models m v.rows e

approved-of :
    {events : List Event} (m : ModelRow)
    → RowIsValid events m
    → m.result ≡ none
    → is_pending m.state ≡ false
    → m.state ≡ approved
approved-of m w n p = ground (arith, w.answered)

module _ (env : Env) (config : OpenAiConfig) (local : LocalConfig) (now : ℕ) (c : Claim)
    (db : Db) where
  -- Nothing was spent on a request that `_begin` sends.
  Sends-unspent :
      (row : Job) (m : ModelRow) (db' : Db)
      → LedgerIsValid db
      → Sends env config local now c db row m db'
      → spent m ≡ 0
  Sends-unspent row m db' v s =
      let w = row_of row.id db m v s.model_row in
      elim (Bool-cases (is_local m.request.payload)) [
        | inl l ↦ w.free l
        | inr p ↦ w.untouched (approved-of m w s.unanswered (s.unsent p))
      ]

  sent-totals :
      (row : Job) (m : ModelRow) (db' : Db)
      → LedgerIsValid db
      → Sends env config local now c db row m db'
      → (total spent db'.models ≤ total spent db.models + hold_for m.request.payload)
        × (total (spent_since (day_start now)) db'.models
            ≤ total (spent_since (day_start now)) db.models + hold_for m.request.payload)
  unfolding to_send
  sent-totals row m db' v s =
      let z = Sends-unspent row m db' v s in
      let f = to_send now (hold_for m.request.payload) in
      let a =
        total-update (λ (n : ModelRow). n.job_id) spent row.id m f db.models v.unique s.model_row in
      let b =
        total-update (λ (n : ModelRow). n.job_id) (spent_since (day_start now)) row.id m f db.models
          v.unique s.model_row in
      let same : db'.models ≡ update (λ (n : ModelRow). n.job_id == row.id) f db.models =
        ground (arith, s.result) in
      (rw same (ground (arith, a, z)), rw same (ground (arith, b, z)))

  -- From a valid ledger, a paid request is sent only if afterwards the money held and charged so far
  -- is within the total budget, and that held and charged since midnight UTC within the daily one.
  pub begin-in_budget :
      (p : Payload) (db' : Db)
      → LedgerIsValid db
      → begin env config local now c db ≡ ok (send p, db')
      → is_local p ≡ false
      → (total spent db'.models ≤ config.total_microusd)
        × (total (spent_since (day_start now)) db'.models ≤ config.daily_microusd)
  unfolding affordable
  begin-in_budget p db' v h paid = from (begin-cases env config local now c db (send p) db' h)
    where
      from :
          Begins env config local now c db (send p) db'
          → (total spent db'.models ≤ config.total_microusd)
            × (total (spent_since (day_start now)) db'.models ≤ config.daily_microusd)
      from (stored r e q) = absurd (cc e)
      from (lost row m e k l q r) = absurd (cc q)
      from (sends row m e s) =
          let (x, y) = sent-totals row m db' v s in
          let same : p ≡ m.request.payload = cc e in
          let paid' : is_local m.request.payload ≡ false = ground (arith, same) in
          let fits = s.in_budget paid' in
          (ground (arith, x, fits, paid'), ground (arith, y, fits, paid'))

  -- `_begin` never raises the ledger above the total budget.
  pub begin-total-le :
      (b : Begun) (db' : Db)
      → LedgerIsValid db
      → total spent db.models ≤ config.total_microusd
      → begin env config local now c db ≡ ok (b, db')
      → total spent db'.models ≤ config.total_microusd
  unfolding affordable
  begin-total-le b db' v t h = from (begin-cases env config local now c db b db' h)
    where
      from : Begins env config local now c db b db' → total spent db'.models ≤ config.total_microusd
      from (stored r e q) = rw q t
      from (lost row m e k l p r) =
          let a =
            total-update (λ (n : ModelRow). n.job_id) spent row.id m
              (λ n. record n { state = unknown }) db.models v.unique e in
          rw r (omega (arith, a, t))
      from (sends row m e s) =
          let (x, y) = sent-totals row m db' v s in
          elim (Bool-cases (is_local m.request.payload)) [
            | inl l ↦ ground (arith, x, l, t)
            | inr p ↦ ground (arith, x, s.in_budget p, p)
          ]

-- Recording an outcome that costs at most what is held never raises what is spent.
pub finish-total-le :
    (id : ℕ) (r : WorkerResult) (m : ModelRow) (db : Db) (r' : WorkerResult) (db' : Db)
    → LedgerIsValid db
    → model_of id db ≡ some m
    → Affords m.request.payload r
    → (is_local m.request.payload ≡ false → m.state ≢ reconciled → is_pending m.state ≡ true)
    → finish id m.request.payload r db ≡ ok (r', db')
    → total spent db'.models ≤ total spent db.models
unfolding recorded
finish-total-le id r m db r' db' v e a sent h = elim (finish-cases id r m db r' db' e h) [
  | inl (k, q) ↦ rw q (le_refl _)
  | inr (row, n, q) ↦
      let w = row_of id db m v e in
      let t =
        total-update (λ (n : ModelRow). n.job_id) spent id m (recorded m.request.payload r)
          db.models v.unique e in
      rw q (elim (Bool-cases (is_local m.request.payload)) [
        | inl l ↦ ground (arith, t, a, l)
        | inr p ↦ ground (arith, t, a, p, w.reserved p (sent p n))
      ])
]
