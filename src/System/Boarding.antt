-- ===== src/System/Boarding.antt =====
-- src/leon_control_plane/work_queue.py: the operations that add a job, and the rows of model_work.
use leon_ai_assistant.Base.{
  ℕ, ◌≡◌, refl, inl, inr, false, ◌∷◌, Option, none, some, arith, Option-cases, ◌==◌, String,
}
use leon_ai_assistant.Base.Rows.{find}
use leon_ai_assistant.Db.{
  Db, Job, Kind, Event, work, queued, openai_text, Approved, ModelRow, Binding, ok, Result-cases,
  job_of, model_of,
}
use leon_ai_assistant.Model.{Env, LocalConfig, Details, prepare}
use leon_ai_assistant.Model.Rows.{is_send}
use leon_ai_assistant.Work.{View, insert_job, insert_model, insert_binding, is_model}
use leon_ai_assistant.Work.Enqueue.{
  enqueue, enqueue_agent_run, admit, add_model, prepared, bind_run, fresh_model, fresh_job, bound,
  run_details,
}
use leon_ai_assistant.Work.Admit.{repeated-same}
use leon_ai_assistant.System.Flight.{Grounded, still, gains}

-- INSERT INTO work_jobs leaves the other tables alone.
insert_job-frame :
    (j : Job) (db db' : Db)
    → insert_job j db ≡ ok db'
    → (db'.models ≡ db.models) × (db'.audit ≡ db.audit)
unfolding insert_job
insert_job-frame j db db' h = ground arith

insert_model-gains :
    (m : ModelRow) (db db' : Db)
    → insert_model m db ≡ ok db'
    → (model_of m.job_id db ≡ none) × (db'.models ≡ m ∷ db.models) × (db'.audit ≡ db.audit)
unfolding insert_model
insert_model-gains m db db' h = elim (Option-cases (model_of m.job_id db)) [
  | inl e ↦ (e, ground (arith, e), ground (arith, e))
  | inr (n, e) ↦ absurd (ground (arith, e))
]

insert_binding-still :
    (b : Binding) (db db' : Db)
    → insert_binding b db ≡ ok db'
    → (db'.models ≡ db.models) × (db'.audit ≡ db.audit)
unfolding insert_binding
insert_binding-still b db db' h = ground arith

-- A row for a job that is inserted in the same transaction.
gains-after :
    (env : Env) (id : ℕ) (a : Approved) (db db₁ db₂ db' : Db) (e : Event)
    → ((k : ℕ) → is_send k e ≡ false)
    → (db₁.models ≡ db.models) × (db₁.audit ≡ db.audit)
    → insert_model (fresh_model env id a) db₁ ≡ ok db₂
    → db'.models ≡ db₂.models
    → db'.audit ≡ e ∷ db₂.audit
    → Grounded db db'
unfolding fresh_model
gains-after env id a db db₁ db₂ db' e quiet (m, u) p x y =
    let (n, q, w) = insert_model-gains (fresh_model env id a) db₁ db₂ p in
    gains env id a (ground (arith, n, m)) (ground (arith, x, q, m))
      (inr (e, quiet, ground (arith, y, w, u)))

admit-Grounded :
    (env : Env) (a : Option Approved) (j : Job) (db : Db) (r : View) (db' : Db)
    → admit env a j db ≡ ok (r, db')
    → Grounded db db'
unfolding admit add_model
admit-Grounded env none j db r db' h = elim (Result-cases (insert_job j db)) [
  | inr (x, e) ↦ absurd (ground (arith, e))
  | inl (db₁, e) ↦
      let f = insert_job-frame j db db₁ e in
      still (ground (arith, e, f)) (inr (work queued j.id, λ k. refl, ground (arith, e, f)))
]
admit-Grounded env (some a) j db r db' h = elim (Result-cases (insert_job j db)) [
  | inr (x, e) ↦ absurd (ground (arith, e))
  | inl (db₁, e) ↦ elim (Result-cases (insert_model (fresh_model env j.id a) db₁)) [
    | inr (x, p) ↦ absurd (ground (arith, e, p))
    | inl (db₂, p) ↦
        gains-after env j.id a db db₁ db₂ db' (work queued j.id) (λ k. refl)
          (insert_job-frame j db db₁ e) p (ground (arith, e, p)) (ground (arith, e, p))
  ]
]

pub enqueue-Grounded :
    (env : Env) (local : LocalConfig) (now new_id task_id : ℕ) (request_id : Option ℕ)
    → (kind : Option Kind) (d : Option Details) (db : Db) (r : View) (db' : Db)
    → enqueue env local now new_id task_id request_id kind d db ≡ ok (r, db')
    → Grounded db db'
unfolding enqueue fresh_job
enqueue-Grounded env local now new_id task_id rid none d db r db' h = absurd (ground arith)
enqueue-Grounded env local now new_id task_id none (some kind) d db r db' h = absurd (ground arith)
enqueue-Grounded env local now new_id task_id (some q) (some kind) d db r db' h =
    elim (Result-cases (prepared env local (is_model kind) d)) [
      | inr (x, e) ↦ absurd (ground (arith, e))
      | inl (a, e) ↦ elim (Option-cases (find (λ (j : Job). j.request_id == q) db.jobs)) [
        | inl n ↦
            admit-Grounded env a (fresh_job now new_id q task_id kind) db r db'
              (ground (arith, e, n))
        | inr (row, n) ↦
            let s = repeated-same a task_id kind row db r db' (ground (arith, e, n)) in
            still (rw s refl) (inl (rw s refl))
      ]
    ]

bind_run-Grounded :
    (env : Env) (a : Approved) (j : Job) (run_id proposal_id : ℕ) (db : Db) (r : View) (db' : Db)
    → bind_run env a j run_id proposal_id db ≡ ok (r, db')
    → Grounded db db'
unfolding bind_run
bind_run-Grounded env a j run_id proposal_id db r db' h = elim (Result-cases (insert_job j db)) [
  | inr (x, e) ↦ absurd (ground (arith, e))
  | inl (db₁, e) ↦ elim (Result-cases (insert_model (fresh_model env j.id a) db₁)) [
    | inr (x, p) ↦ absurd (ground (arith, e, p))
    | inl (db₂, p) ↦ elim (Result-cases (insert_binding (bound j run_id proposal_id) db₂)) [
      | inr (x, q) ↦ absurd (ground (arith, e, p, q))
      | inl (db₃, q) ↦
          let s = insert_binding-still _ db₂ db₃ q in
          gains-after env j.id a db db₁ db₂ db' (work queued j.id) (λ k. refl)
            (insert_job-frame j db db₁ e) p (ground (arith, e, p, q, s))
            (ground (arith, e, p, q, s))
    ]
  ]
]

pub enqueue_agent_run-Grounded :
    (env : Env) (local : LocalConfig) (now new_id request_id task_id run_id proposal_id : ℕ)
    → (prompt : String) (limit : ℕ) (db : Db) (r : View) (db' : Db)
    → enqueue_agent_run env local now new_id request_id task_id run_id proposal_id prompt limit db
      ≡ ok (r, db')
    → Grounded db db'
unfolding enqueue_agent_run
enqueue_agent_run-Grounded env local now new_id rid task_id run_id pid prompt limit db r db' h =
    elim (Result-cases (prepare env local false (run_details prompt limit))) [
      | inr (x, e) ↦ absurd (ground (arith, e))
      | inl (a, e) ↦
          elim (Option-cases (find (λ (b : Binding). b.proposal_id == pid) db.bindings)) [
            | inl n ↦
                bind_run-Grounded env a (fresh_job now new_id rid task_id openai_text) run_id pid db
                  r db' (ground (arith, e, n))
            | inr (b, n) ↦ elim (Option-cases (job_of b.job_id db)) [
              | inl k ↦ absurd (ground (arith, e, n, k))
              | inr (row, k) ↦ still (ground (arith, e, n, k)) (inl (ground (arith, e, n, k)))
            ]
          ]
    ]
