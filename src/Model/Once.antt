-- ===== src/Model/Once.antt =====
-- src/leon_control_plane/model_work.py: what sending a request and recording its outcome do to the ledger.
use leon_ai_assistant.Base.{
  ℕ, ◌+◌, ◌≤◌, ◌≡◌, refl, ◌⊎◌, inl, inr, ◌≢◌, true, false, List, ◌∷◌, Option, none, some, arith,
  Bool-cases, Option-cases, is_some, ◌==◌, All, if◌then◌else◌, sym, subst, subst₂, ◌∙◌,
}
use leon_ai_assistant.Base.Rows.{find, count, update, find-test}
use leon_ai_assistant.Base.Keys.{Unique, update-by_key, Unique-update, is_some-by_key-update}
use leon_ai_assistant.Db.{
  Db, Job, ModelRow, ModelState, unknown, reconciled, Payload, Event, model_send_authorized,
  model_unknown, model_result_recorded, ok, job_of, model_of, set_model, log, is_local,
  WorkerResult,
}
use leon_ai_assistant.Model.{Env, OpenAiConfig, LocalConfig, reservation}
use leon_ai_assistant.Model.Price.{cost_microusd_mono}
use leon_ai_assistant.Work.Claim.{Claim}
use Prim.Native.String.{len}
use leon_ai_assistant.Model.Ledger.{
  Begun, begin, is_pending, hold_for, to_send, recorded, finish, outcome, Reply, parse_usage,
}
use leon_ai_assistant.Model.Spending.{Sends, begin-cases, Begins, stored, lost, sends}
use leon_ai_assistant.Model.Rows.{
  Affords, LedgerIsValid, RowIsValid, is_send, quiet-RowIsValid, sent_count, to_send-RowIsValid,
  unknown-RowIsValid, recorded-RowIsValid,
}

pub parse_usage-le :
    (p : Payload) (r : Reply) (cost : ℕ) → parse_usage p r ≡ some cost → cost ≤ reservation p
unfolding parse_usage reservation
parse_usage-le p r cost h = ground (
  arith,
  cost_microusd_mono r.input_tokens (len p.input + 1024) r.output_tokens p.max_output_tokens,
)

-- What `execute` makes of a reply never costs more than the money held for the request.
pub outcome-affordable :
    (env : Env) (p : Payload) (o : Option Reply)
    → (outcome env p o).accounted ≤ (if is_local p then 0 else reservation p)
unfolding outcome
outcome-affordable env p none = ground arith
outcome-affordable env p (some r) = elim (Bool-cases (is_local p)) [
  | inl l ↦ ground (arith, l)
  | inr l ↦ elim (Option-cases (parse_usage p r)) [
    | inl e ↦ ground (arith, l, e)
    | inr (cost, e) ↦ ground (arith, l, e, parse_usage-le p r cost e)
  ]
]

none-of-is_some : {A : Type 0} (o q : Option A) → is_some o ≡ is_some q → o ≡ none → q ≡ none
none-of-is_some o none e h = refl
none-of-is_some o (some a) e h = absurd (ground (arith, e, h))

pub sent_count-quiet :
    (k : ℕ) (e : Event) (events : List Event)
    → is_send k e ≡ false
    → sent_count k (e ∷ events) ≡ sent_count k events
unfolding sent_count count
sent_count-quiet k e events q = rw q (omega arith)

-- A change of one row, logged by an event that authorizes at most a send of that row.
pub row-LedgerIsValid :
    (id : ℕ) (m : ModelRow) (f : ModelRow → ModelRow) (e : Event) (db db' : Db)
    → db'.models ≡ update (λ (n : ModelRow). n.job_id == id) f db.models
    → db'.audit ≡ e ∷ db.audit
    → ((n : ModelRow) → (f n).job_id ≡ n.job_id)
    → model_of id db ≡ some m
    → ((k : ℕ) → k ≢ id → is_send k e ≡ false)
    → (RowIsValid db.audit m → RowIsValid (e ∷ db.audit) (f m))
    → LedgerIsValid db
    → LedgerIsValid db'
row-LedgerIsValid id m f e db db' same audit keys found quiet hit v = record {
  unique =
      subst (Unique (λ (n : ModelRow). n.job_id)) (sym same)
        (Unique-update (λ (n : ModelRow). n.job_id) _ f db.models keys v.unique);
  rows =
      subst₂ (λ es ms. All (RowIsValid es) ms) (sym audit) (sym same)
        (update-by_key (λ (n : ModelRow). n.job_id) (RowIsValid db.audit)
          (RowIsValid (e ∷ db.audit)) id m f db.models v.unique found hit
          (λ n h k. quiet-RowIsValid e db.audit n (quiet n.job_id k) h) v.rows);
  unborn = λ k h.
      subst (λ es. sent_count k es ≡ 0) (sym audit)
        (let gone : model_of k db ≡ none =
            none-of-is_some _ _
              (is_some-by_key-update (λ (n : ModelRow). n.job_id) id k f db.models keys)
              (subst (λ ms. find (λ (n : ModelRow). n.job_id == k) ms ≡ none) same h) in
          sent_count-quiet k e db.audit (quiet k (λ p. other k p gone)) ∙ v.unborn k gone);
}
  where
    other : (k : ℕ) → k ≡ id → model_of k db ≡ none → ⊥
    other k p h = cc (subst (λ j. model_of j db ≡ none) p h, found)

model_of-id : (id : ℕ) (db : Db) (m : ModelRow) → model_of id db ≡ some m → m.job_id ≡ id
model_of-id id db m h =
    let t = find-test (λ (n : ModelRow). n.job_id == id) db.models m h in ground (arith, t)

-- The ledger after `_begin` marked a request as sending.
sent-LedgerIsValid :
    (env : Env) (config : OpenAiConfig) (local : LocalConfig) (now : ℕ) (c : Claim) (db db' : Db)
    → (row : Job) (m : ModelRow) → LedgerIsValid db
    → Sends env config local now c db row m db'
    → LedgerIsValid db'
unfolding to_send
sent-LedgerIsValid env config local now c db db' row m v s =
    row-LedgerIsValid row.id m (to_send now (hold_for m.request.payload))
      (model_send_authorized row.id) db db' (ground (arith, s.result)) (ground (arith, s.result))
      (λ n. refl) s.model_row (λ k n. ground arith)
      (λ h.
        subst
          (λ k.
            RowIsValid (model_send_authorized k ∷ db.audit)
              (to_send now (hold_for m.request.payload) m))
          (model_of-id row.id db m s.model_row)
          (to_send-RowIsValid now db.audit m s.unanswered s.unsent h))
      v

-- `_begin` keeps every row of the ledger valid: a paid request is sent at most once, its money is
-- covered by its reservation, and a local one holds none.
pub begin-LedgerIsValid :
    (env : Env) (config : OpenAiConfig) (local : LocalConfig) (now : ℕ) (c : Claim) (db : Db)
    → (b : Begun) (db' : Db) → LedgerIsValid db
    → begin env config local now c db ≡ ok (b, db')
    → LedgerIsValid db'
begin-LedgerIsValid env config local now c db b db' v h =
    from (begin-cases env config local now c db b db' h)
  where
    from : Begins env config local now c db b db' → LedgerIsValid db'
    from (stored r p q) = rw q v
    from (lost row m e p l q r) =
        row-LedgerIsValid row.id m (λ n. record n { state = unknown }) (model_unknown row.id) db db'
          (ground (arith, r)) (ground (arith, r)) (λ n. refl) e (λ k n. refl)
          (λ w. quiet-RowIsValid _ _ _ refl (unknown-RowIsValid db.audit m p w)) v
    from (sends row m p s) = sent-LedgerIsValid env config local now c db db' row m v s

pub recorded-keeps :
    (p : Payload) (r : WorkerResult) (m : ModelRow) → (recorded p r m).job_id ≡ m.job_id
unfolding recorded
recorded-keeps p r m = ground arith

pub reconciled-or-not : (s : ModelState) → (s ≡ reconciled) ⊎ (s ≢ reconciled)
reconciled-or-not reconciled = inl refl
reconciled-or-not _ = inr (λ e. cc)

-- `finish` leaves a reconciled row alone, and records the outcome in any other.
pub finish-cases :
    (id : ℕ) (r : WorkerResult) (m : ModelRow) (db : Db) (r' : WorkerResult) (db' : Db)
    → model_of id db ≡ some m
    → finish id m.request.payload r db ≡ ok (r', db')
    → ((m.state ≡ reconciled) × (db' ≡ db))
      ⊎ ((row : Job) × (m.state ≢ reconciled)
          × (db'
              ≡ log
                  (model_result_recorded row.id)
                  (set_model id (recorded m.request.payload r) db)))
unfolding finish
finish-cases id r m db r' db' e h = elim (Option-cases (job_of id db)) [
  | inl j ↦ absurd (ground (arith, j))
  | inr (row, j) ↦ elim (reconciled-or-not m.state) [
    | inl k ↦ inl (k, ground (arith, j, e, k))
    | inr n ↦ inr (row, n, ground (arith, j, e, n))
  ]
]

-- The last transaction of `execute` keeps the ledger valid, if the outcome costs no more than what is
-- held and a paid request is still on its way, or was reconciled meanwhile.
pub finish-LedgerIsValid :
    (id : ℕ) (r : WorkerResult) (m : ModelRow) (db : Db) (r' : WorkerResult) (db' : Db)
    → LedgerIsValid db
    → model_of id db ≡ some m
    → Affords m.request.payload r
    → (is_local m.request.payload ≡ false → m.state ≢ reconciled → is_pending m.state ≡ true)
    → finish id m.request.payload r db ≡ ok (r', db')
    → LedgerIsValid db'
unfolding finish
finish-LedgerIsValid id r m db r' db' v e a sent h = elim (finish-cases id r m db r' db' e h) [
  | inl (k, q) ↦ rw q v
  | inr (row, n, q) ↦
      row-LedgerIsValid id m (recorded m.request.payload r) (model_result_recorded row.id) db db'
        (ground (arith, q)) (ground (arith, q)) (recorded-keeps m.request.payload r) e (λ k x. refl)
        (λ w. quiet-RowIsValid _ _ _ refl (recorded-RowIsValid db.audit r m a (λ p. sent p n) w)) v
]
