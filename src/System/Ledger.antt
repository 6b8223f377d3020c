-- ===== src/System/Ledger.antt =====
-- src/leon_control_plane/model_work.py: the ledger and the requests in flight, under the queue's
-- operations.
use leon_ai_assistant.Base.{
  ℕ, ◌≤◌, ◌≡◌, refl, sym, subst, ◌⊎◌, inl, inr, ◌≢◌, true, false, List, ◌∷◌, none, some, arith,
  Bool-cases, ◌==◌, All, All-map_of, ◌∙◌,
}
use leon_ai_assistant.Base.Rows.{find, update, total}
use leon_ai_assistant.Base.Keys.{
  Unique, by_key-none_iff_right, by_key-update_self, by_key-update_ne,
}
use leon_ai_assistant.Db.{Db, Event, ModelRow, reconciled, Approved, model_of, is_local}
use leon_ai_assistant.Model.{Env, OpenAiConfig}
use leon_ai_assistant.Model.Ledger.{is_pending, spent}
use leon_ai_assistant.Model.Once.{sent_count-quiet}
use leon_ai_assistant.Model.Rows.{sent_count, RowIsValid, LedgerIsValid, quiet-RowIsValid}
use leon_ai_assistant.Work.Enqueue.{fresh_model}
use leon_ai_assistant.System.{World}
use leon_ai_assistant.System.Flight.{Logs, Grounded, still, gains}

Logs-count : (db db' : Db) (id : ℕ) → Logs db db' → sent_count id db'.audit ≡ sent_count id db.audit
Logs-count db db' id (inl e) = rw e refl
Logs-count db db' id (inr (e, q, p)) = rw p (sent_count-quiet id e db.audit (q id))

Logs-RowIsValid :
    (db db' : Db) (m : ModelRow) → Logs db db' → RowIsValid db.audit m → RowIsValid db'.audit m
Logs-RowIsValid db db' m (inl e) v = rw e v
Logs-RowIsValid db db' m (inr (e, q, p)) v = rw p (quiet-RowIsValid e db.audit m (q m.job_id) v)

still-LedgerIsValid :
    (db db' : Db) → db'.models ≡ db.models → Logs db db' → LedgerIsValid db → LedgerIsValid db'
still-LedgerIsValid db db' e l v = record {
  unique = rw e v.unique;
  rows = subst (All (RowIsValid db'.audit)) (sym e) (
      All-map_of (RowIsValid db.audit) (RowIsValid db'.audit) db.models
        (λ m. Logs-RowIsValid db db' m l) v.rows);
  unborn = λ id n.
      Logs-count db db' id l
      ∙ v.unborn id (subst (λ ms. find (λ (m : ModelRow). m.job_id == id) ms ≡ none) e n);
}

fresh-RowIsValid :
    (env : Env) (id : ℕ) (a : Approved) (events : List Event)
    → sent_count id events ≡ 0
    → RowIsValid events (fresh_model env id a)
unfolding fresh_model
fresh-RowIsValid env id a events z = record {
  once = λ p. omega (arith, z);
  unsent = λ p s. z;
  untouched = λ s. refl;
  answered = λ s. cc;
  covered = λ p. omega arith;
  reserved = λ p s. cc;
  free = λ p. refl;
}

gains-LedgerIsValid :
    (env : Env) (id : ℕ) (a : Approved) (db db' : Db)
    → model_of id db ≡ none
    → db'.models ≡ fresh_model env id a ∷ db.models
    → Logs db db'
    → LedgerIsValid db
    → LedgerIsValid db'
unfolding fresh_model find
gains-LedgerIsValid env id a db db' n e l v = record {
  unique = rw e (by_key-none_iff_right (λ (m : ModelRow). m.job_id) id db.models n, v.unique);
  rows = subst (All (RowIsValid db'.audit)) (sym e) (
    fresh-RowIsValid env id a db'.audit (Logs-count db db' id l ∙ v.unborn id n),
    All-map_of (RowIsValid db.audit) (RowIsValid db'.audit) db.models
        (λ m. Logs-RowIsValid db db' m l) v.rows,
  );
  unborn = λ k h. Logs-count db db' k l ∙ v.unborn k (ground (arith, e));
}

-- A job whose paid request may be on its way: the ledger still counts it as unanswered.
abbrev pub Flying : Db → ℕ → Type 0
Flying db id =
    (m : ModelRow) × (model_of id db ≡ some m)
    × (is_local m.request.payload ≡ false)
    × (m.state ≢ reconciled → is_pending m.state ≡ true)

pub record WorldIsValid (config : OpenAiConfig) (w : World) : Type 0 where
  pub ledger : LedgerIsValid w.db
  pub budget : total spent w.db.models ≤ config.total_microusd
  pub distinct : Unique (λ (x : ℕ). x) w.in_flight
  pub flying : All (Flying w.db) w.in_flight

pub same-Flying : (db db' : Db) (id : ℕ) → db'.models ≡ db.models → Flying db id → Flying db' id
same-Flying db db' id e (m, f, p, s) = (m, rw e f, p, s)

gains-Flying :
    (env : Env) (id : ℕ) (a : Approved) (db db' : Db) (k : ℕ)
    → model_of id db ≡ none
    → db'.models ≡ fresh_model env id a ∷ db.models
    → Flying db k
    → Flying db' k
unfolding fresh_model find
gains-Flying env id a db db' k n e (m, f, p, s) = elim (Bool-cases (id == k)) [
  | inl t ↦
      let q : id ≡ k = ground (arith, t) in absurd (cc (subst (λ i. model_of i db ≡ none) q n, f))
  | inr t ↦ (m, ground (arith, e, t, f), p, s)
]

pub Grounded-WorldIsValid :
    (config : OpenAiConfig) (w : World) (db' : Db)
    → Grounded w.db db'
    → WorldIsValid config w
    → WorldIsValid config (record { db = db'; in_flight = w.in_flight })
unfolding total fresh_model
Grounded-WorldIsValid config w db' (still e l) v = record {
  ledger = still-LedgerIsValid w.db db' e l v.ledger;
  budget = rw e v.budget;
  distinct = v.distinct;
  flying =
      All-map_of (Flying w.db) (Flying db') w.in_flight (λ k. same-Flying w.db db' k e) v.flying;
}
Grounded-WorldIsValid config w db' (gains env id a n e l) v = record {
  ledger = gains-LedgerIsValid env id a w.db db' n e l v.ledger;
  budget = rw e (omega (arith, v.budget));
  distinct = v.distinct;
  flying =
      All-map_of (Flying w.db) (Flying db') w.in_flight (λ k. gains-Flying env id a w.db db' k n e)
        v.flying;
}

-- A change of another job's row.
pub other-Flying :
    (id : ℕ) (f : ModelRow → ModelRow) (db db' : Db) (k : ℕ)
    → db'.models ≡ update (λ (m : ModelRow). m.job_id == id) f db.models
    → ((m : ModelRow) → (f m).job_id ≡ m.job_id)
    → id ≢ k
    → Flying db k
    → Flying db' k
other-Flying id f db db' k e keys n (m, g, p, s) =
    (m, rw e (by_key-update_ne (λ (m : ModelRow). m.job_id) id k f db.models keys n ∙ g), p, s)

pub self-Flying :
    (id : ℕ) (f : ModelRow → ModelRow) (m : ModelRow) (db db' : Db)
    → db'.models ≡ update (λ (m : ModelRow). m.job_id == id) f db.models
    → ((m : ModelRow) → (f m).job_id ≡ m.job_id)
    → model_of id db ≡ some m
    → is_local (f m).request.payload ≡ false
    → is_pending (f m).state ≡ true
    → Flying db' id
self-Flying id f m db db' e keys found p s = (
  f m,
  rw e (by_key-update_self (λ (m : ModelRow). m.job_id) id f m db.models keys found),
  p,
  λ _. s,
)

pub eq-or-ne : (a b : ℕ) → (a ≡ b) ⊎ (a ≢ b)
eq-or-ne a b = elim (Bool-cases (a == b)) [
  | inl t ↦ inl (ground (arith, t))
  | inr t ↦ inr (ground (arith, t))
]
