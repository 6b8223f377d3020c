-- ===== src/Model/Lost.antt =====
-- src/leon_control_plane/model_work.py: how the reply to a request on its way is lost.
use leon_ai_assistant.Base.{
  ℕ, ◌≡◌, refl, sym, subst, ◌∙◌, inl, inr, true, false, ◌∷◌, none, some, arith, ◌==◌, All-map_of,
}
use leon_ai_assistant.Base.Keys.{by_key-update_self}
use leon_ai_assistant.Db.{
  Db, Job, ModelRow, sending, unknown, WorkerResult, ok, job_of, model_of, set_model, log, is_local,
  model_unknown, model_usage_observed,
}
use leon_ai_assistant.Model.{Env, OpenAiConfig, LocalConfig}
use leon_ai_assistant.Model.Ledger.{Begun, begin, unanswered, finish, recorded, unknown_result}
use leon_ai_assistant.Model.Rows.{LedgerIsValid, RowIsValid, quiet-RowIsValid}
use leon_ai_assistant.Model.Once.{
  begin-LedgerIsValid, finish-LedgerIsValid, finish-cases, recorded-keeps, sent_count-quiet,
}
use leon_ai_assistant.Work.Advance.{job_of-id}
use leon_ai_assistant.Work.Claim.{Claim}

-- A request on its way that `_begin` finds again becomes unknown.
begin-pending :
    (env : Env) (config : OpenAiConfig) (local : LocalConfig) (now : ℕ) (c : Claim) (db : Db)
    (b : Begun) (db' : Db) {id : ℕ} (j : Job) (m : ModelRow)
    → c.id ≡ id
    → job_of id db ≡ some j
    → model_of id db ≡ some m
    → m.state ≡ sending
    → m.result ≡ none
    → is_local m.request.payload ≡ false
    → begin env config local now c db ≡ ok (b, db')
    → db' ≡ log (model_unknown id) (set_model id (λ n. record n { state = unknown }) db)
unfolding begin unanswered
begin-pending env config local now c db b db' {id} j m same ej em s un paid h =
    let k : j.id ≡ id = job_of-id id db j ej in
    ground (arith, same, ej, k, subst (λ i. model_of i db ≡ some m) (sym k) em, s, un, paid)

-- The event of a recorded usage.
pub logged-LedgerIsValid :
    (id : ℕ) (db : Db) → LedgerIsValid db → LedgerIsValid (log (model_usage_observed id) db)
logged-LedgerIsValid id db v = record {
  unique = v.unique;
  rows =
      All-map_of (RowIsValid db.audit) (RowIsValid (model_usage_observed id ∷ db.audit)) db.models
        (λ m. quiet-RowIsValid (model_usage_observed id) db.audit m refl) v.rows;
  unborn = λ k n. sent_count-quiet k (model_usage_observed id) db.audit refl ∙ v.unborn k n;
}

module _ (env : Env) where
  -- How the reply of a request is lost after its usage was recorded: the process died, and a later claim
  -- of the job finds the request on its way; or the answer could not be read, and `execute` records that.
  pub data Lost (id : ℕ) (m : ModelRow) (db db' : Db) : Type 0 where
    restarted :
        (config : OpenAiConfig) (local : LocalConfig) (now : ℕ) (c : Claim) (b : Begun)
        → c.id ≡ id
        → begin env config local now c db ≡ ok (b, db')
        → Lost id m db db'
    unreadable :
        (r : WorkerResult)
        → finish id m.request.payload unknown_result db ≡ ok (r, db')
        → Lost id m db db'

  -- The row of the request once its reply is lost.
  pub record Unknown (id : ℕ) (j : Job) (m : ModelRow) (db db' : Db) : Type 0 where
    pub row : ModelRow
    pub ledger : LedgerIsValid db'
    pub job : job_of id db' ≡ some j
    pub found : model_of id db' ≡ some row
    pub state : row.state ≡ unknown
    pub request : row.request ≡ m.request
    pub digest : row.digest ≡ m.digest

  pub Lost-Unknown :
      (id : ℕ) (j : Job) (m : ModelRow) (db db' : Db)
      → LedgerIsValid db
      → job_of id db ≡ some j
      → model_of id db ≡ some m
      → m.state ≡ sending
      → m.result ≡ none
      → is_local m.request.payload ≡ false
      → (env.digest m.request == m.digest) ≡ true
      → Lost id m db db'
      → Unknown id j m db db'
  unfolding recorded
  Lost-Unknown id j m db db' v ej em s un paid d (restarted config local now c b same h) =
      let q = begin-pending env config local now c db b db' j m same ej em s un paid h in
      record {
        row = record m { state = unknown };
        ledger = begin-LedgerIsValid env config local now c db b db' v h;
        job = rw q ej;
        found = rw q (
            by_key-update_self (λ (n : ModelRow). n.job_id) id (λ n. record n { state = unknown }) m
              db.models (λ n. refl) em);
        state = refl;
        request = refl;
        digest = refl;
      }
  Lost-Unknown id j m db db' v ej em s un paid d (unreadable r h) =
      elim (finish-cases id unknown_result m db r db' em h) [
        | inl (k, _) ↦ absurd (cc (k, s))
        | inr (row, _, q) ↦ record {
          row = recorded m.request.payload unknown_result m;
          ledger =
              finish-LedgerIsValid id unknown_result m db r db' v em (ground arith)
                (λ _ _. rw s refl) h;
          job = rw q ej;
          found = rw q (
              by_key-update_self (λ (n : ModelRow). n.job_id) id
                (recorded m.request.payload unknown_result) m db.models
                (recorded-keeps m.request.payload unknown_result) em);
          state = ground (arith, paid);
          request = ground (arith, paid);
          digest = ground (arith, paid);
        }
      ]
