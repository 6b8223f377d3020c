-- ===== src/System/Launch.antt =====
-- src/leon_control_plane/model_work.py: `_begin` and the requests in flight.
use leon_ai_assistant.Base.{
  ℕ, ◌≡◌, refl, sym, ap, subst, inl, inr, ◌≢◌, true, false, List, ◌∷◌, some, arith, Bool-cases,
  ◌==◌, All, All-map_of, ◌∙◌,
}
use leon_ai_assistant.Base.Rows.{update}
use leon_ai_assistant.Base.Keys.{Unique}
use leon_ai_assistant.Db.{Db, Job, ModelRow, unknown, ok, model_of, is_local}
use leon_ai_assistant.Model.{Env, OpenAiConfig, LocalConfig}
use leon_ai_assistant.Model.Ledger.{Begun, begin, to_send, hold_for}
use leon_ai_assistant.Model.Spending.{Begins, Sends, stored, lost, sends, begin-cases}
use leon_ai_assistant.Model.Once.{begin-LedgerIsValid}
use leon_ai_assistant.Model.Rows.{LedgerIsValid}
use leon_ai_assistant.Model.Budget.{begin-total-le, row_of}
use leon_ai_assistant.Work.Advance.{job_of-id}
use leon_ai_assistant.Work.Claim.{Claim}
use leon_ai_assistant.System.{World, launched}
use leon_ai_assistant.Model.Once.{reconciled-or-not}
use leon_ai_assistant.System.Ledger.{
  Flying, WorldIsValid, same-Flying, other-Flying, self-Flying, eq-or-ne,
}

-- A request that may be sent is not on its way.
not-Flying :
    (env : Env) (config : OpenAiConfig) (local : LocalConfig) (now : ℕ) (c : Claim) (db db' : Db)
    → (row : Job) (m : ModelRow) → LedgerIsValid db
    → Sends env config local now c db row m db'
    → Flying db row.id
    → ⊥
not-Flying env config local now c db db' row m v s (n, e, p, t) =
    let q : n ≡ m = ground (arith, e, s.model_row) in
    let w = row_of row.id db m v s.model_row in
    let paid : is_local m.request.payload ≡ false = rw q at p in
    elim (reconciled-or-not m.state) [
      | inl r ↦ ground (arith, w.answered (rw r refl), s.unanswered)
      | inr r ↦ cc (s.unsent paid, t (λ x. r (ap (λ (y : ModelRow). y.state) (sym q) ∙ x)), q)
    ]

module _ (env : Env) (config : OpenAiConfig) (local : LocalConfig) (now : ℕ) (c : Claim) (w : World)
    (b : Begun) (db' : Db) (v : WorldIsValid config w)
    (h : begin env config local now c w.db ≡ ok (b, db')) where
  begun :
      (ids : List ℕ)
      → Unique (λ (x : ℕ). x) ids
      → All (Flying db') ids
      → WorldIsValid config (record { db = db'; in_flight = ids })
  begun ids d f = record {
    ledger = begin-LedgerIsValid env config local now c w.db b db' v.ledger h;
    budget = begin-total-le env config local now c w.db b db' v.ledger v.budget h;
    distinct = d;
    flying = f;
  }

  sent-Flying :
      (row : Job) (m : ModelRow)
      → is_local m.request.payload ≡ true
      → Sends env config local now c w.db row m db'
      → (k : ℕ) → Flying w.db k
      → Flying db' k
  unfolding to_send
  sent-Flying row m l s k f = elim (eq-or-ne row.id k) [
    | inl e ↦
        let f' : Flying w.db row.id = rw (sym e) at f in
        absurd (ground (arith, f'.1, s.model_row, f'.2, l))
    | inr n ↦
        other-Flying row.id (to_send now (hold_for m.request.payload)) w.db db' k
          (ground (arith, s.result)) (λ n. refl) n f
  ]

  -- The requests in flight once `_begin` answered.
  landed :
      (ids : List ℕ)
      → launched c b w.in_flight ≡ ids
      → Unique (λ (x : ℕ). x) ids
      → All (Flying db') ids
      → WorldIsValid config (record { db = db'; in_flight = launched c b w.in_flight })
  landed ids e d f =
      subst (λ xs. WorldIsValid config (record { db = db'; in_flight = xs })) (sym e)
        (begun ids d f)

  lost-Flying :
      (row : Job) (m : ModelRow)
      → model_of row.id w.db ≡ some m
      → is_local m.request.payload ≡ false
      → db'.models
        ≡ update
            (λ (n : ModelRow). n.job_id == row.id)
            (λ n. record n { state = unknown })
            w.db.models
      → (k : ℕ) → Flying w.db k
      → Flying db' k
  lost-Flying row m e l r k f = elim (eq-or-ne row.id k) [
    | inl q ↦
        subst (Flying db') q
          (self-Flying row.id (λ n. record n { state = unknown }) m w.db db' r (λ n. refl) e l refl)
    | inr n ↦ other-Flying row.id (λ n. record n { state = unknown }) w.db db' k r (λ n. refl) n f
  ]

  paid-Flying :
      (row : Job) (m : ModelRow)
      → is_local m.request.payload ≡ false
      → Sends env config local now c w.db row m db'
      → All (Flying db') (c.id ∷ w.in_flight) × Unique (λ (x : ℕ). x) (c.id ∷ w.in_flight)
  unfolding to_send
  paid-Flying row m l s =
      let f = to_send now (hold_for m.request.payload) in
      let r : db'.models ≡ update (λ (n : ModelRow). n.job_id == row.id) f w.db.models =
        ground (arith, s.result) in
      let i = job_of-id c.id w.db row s.job_row in
      let apart : (k : ℕ) → Flying w.db k → k ≢ row.id = λ k g q.
        not-Flying env config local now c w.db db' row m v.ledger s (subst (Flying w.db) q g) in
      (
        (
          subst (Flying db') i (self-Flying row.id f m w.db db' r (λ n. refl) s.model_row l refl),
          All-map_of (Flying w.db) (Flying db') w.in_flight
              (λ k g. other-Flying row.id f w.db db' k r (λ n. refl) (λ q. apart k g (sym q)) g)
              v.flying,
        ),
        (
          All-map_of (Flying w.db) (λ k. (k == c.id) ≡ false) w.in_flight
              (λ k g. differs k (λ q. apart k g (q ∙ sym i))) v.flying,
          v.distinct,
        ),
      )
    where
      differs : (k : ℕ) → k ≢ c.id → (k == c.id) ≡ false
      differs k n = ground arith

  pub begin-WorldIsValid :
      WorldIsValid config (record { db = db'; in_flight = launched c b w.in_flight })
  unfolding launched
  begin-WorldIsValid = from (begin-cases env config local now c w.db b db' h)
    where
      from :
          Begins env config local now c w.db b db'
          → WorldIsValid config (record { db = db'; in_flight = launched c b w.in_flight })
      from (stored r e q) = landed w.in_flight (rw e refl) v.distinct (
          All-map_of (Flying w.db) (Flying db') w.in_flight
            (λ k. same-Flying w.db db' k (rw q refl)) v.flying)
      from (lost row m e p l q r) = landed w.in_flight (rw q refl) v.distinct (
          All-map_of (Flying w.db) (Flying db') w.in_flight (lost-Flying row m e l (rw r refl))
            v.flying)
      from (sends row m e s) = elim (Bool-cases (is_local m.request.payload)) [
        | inl l ↦
            landed w.in_flight (ground (arith, e, l)) v.distinct
              (All-map_of (Flying w.db) (Flying db') w.in_flight (sent-Flying row m l s) v.flying)
        | inr l ↦
            let (f, d) = paid-Flying row m l s in
            landed (c.id ∷ w.in_flight) (ground (arith, e, l)) d f
      ]
