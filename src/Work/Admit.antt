-- ===== src/Work/Admit.antt =====
-- src/leon_control_plane/work_queue.py: `enqueue` and `enqueue_agent_run`, against the invariant.
use leon_ai_assistant.Base.{
  ℕ, ◌≡◌, inl, inr, false, Option, none, some, ◌==◌, arith, Option-cases, String,
}
use leon_ai_assistant.Base.Rows.{find}
use leon_ai_assistant.Db.{
  Db, Job, Kind, Approved, Binding, ModelRow, openai_text, ok, Result-cases, job_of,
}
use leon_ai_assistant.Model.{Env, LocalConfig, Details, prepare}
use leon_ai_assistant.Work.{View, is_model, insert_job, insert_model, insert_binding}
use leon_ai_assistant.Work.Enqueue.{
  fresh_model, run_details, bound, fresh_job, prepared, admit, add_model, repeated, enqueue,
  bind_run, enqueue_agent_run,
}
use leon_ai_assistant.Work.Invariant.{DbIsValid}
use leon_ai_assistant.Work.Fresh.{IsFresh, frame-DbIsValid, fresh_job-IsFresh, insert_job-DbIsValid}

pub insert_model-frame :
    (m : ModelRow) (db db' : Db)
    → insert_model m db ≡ ok db'
    → (db'.jobs ≡ db.jobs) × (db'.checkpoints ≡ db.checkpoints)
unfolding insert_model
insert_model-frame m db db' h = ground arith

pub insert_binding-frame :
    (b : Binding) (db db' : Db)
    → insert_binding b db ≡ ok db'
    → (db'.jobs ≡ db.jobs) × (db'.checkpoints ≡ db.checkpoints)
unfolding insert_binding
insert_binding-frame b db db' h = ground arith

pub add_model-frame :
    (env : Env) (id : ℕ) (a : Option Approved) (db db' : Db)
    → add_model env id a db ≡ ok db'
    → (db'.jobs ≡ db.jobs) × (db'.checkpoints ≡ db.checkpoints)
unfolding add_model
add_model-frame env id none db db' h = ground arith
add_model-frame env id (some a) db db' h = insert_model-frame _ db db' h

admit-DbIsValid :
    (env : Env) (a : Option Approved) (j : Job) (db : Db) (r : View) (db' : Db)
    → IsFresh j
    → DbIsValid db
    → admit env a j db ≡ ok (r, db')
    → DbIsValid db'
unfolding admit
admit-DbIsValid env a j db r db' f v h = elim (Result-cases (insert_job j db)) [
  | inr (x, e) ↦ absurd (ground (arith, e))
  | inl (db₁, e) ↦ elim (Result-cases (add_model env j.id a db₁)) [
    | inr (x, p) ↦ absurd (ground (arith, e, p))
    | inl (db₂, p) ↦
        let v₁ = insert_job-DbIsValid j db db₁ f (ground arith) e v in
        let same = add_model-frame env j.id a db₁ db₂ p in
        frame-DbIsValid db₁ db' (ground (arith, e, p, same)) (ground (arith, e, p, same)) v₁
  ]
]

pub repeated-same :
    (a : Option Approved) (task_id : ℕ) (kind : Kind) (row : Job) (db : Db) (r : View) (db' : Db)
    → repeated a task_id kind row db ≡ ok (r, db')
    → db' ≡ db
unfolding repeated
repeated-same a task_id kind row db r db' h = ground arith

-- `enqueue` keeps the invariant whenever it succeeds.
pub enqueue-DbIsValid :
    (env : Env) (local : LocalConfig) (now new_id task_id : ℕ) (request_id : Option ℕ)
    → (kind : Option Kind) (d : Option Details) (db : Db) (r : View) (db' : Db) → DbIsValid db
    → enqueue env local now new_id task_id request_id kind d db ≡ ok (r, db')
    → DbIsValid db'
unfolding enqueue
enqueue-DbIsValid env local now new_id task_id rid none d db r db' v h = absurd (ground arith)
enqueue-DbIsValid env local now new_id task_id none (some kind) d db r db' v h =
    absurd (ground arith)
enqueue-DbIsValid env local now new_id task_id (some q) (some kind) d db r db' v h =
    elim (Result-cases (prepared env local (is_model kind) d)) [
      | inr (x, e) ↦ absurd (ground (arith, e))
      | inl (a, e) ↦ elim (Option-cases (find (λ (j : Job). j.request_id == q) db.jobs)) [
        | inl n ↦
            admit-DbIsValid env a (fresh_job now new_id q task_id kind) db r db'
              (fresh_job-IsFresh now new_id q task_id kind) v (ground (arith, e, n))
        | inr (row, n) ↦
            let same = repeated-same a task_id kind row db r db' (ground (arith, e, n)) in rw same v
      ]
    ]

bind_run-DbIsValid :
    (env : Env) (a : Approved) (j : Job) (run_id proposal_id : ℕ) (db : Db) (r : View) (db' : Db)
    → IsFresh j
    → DbIsValid db
    → bind_run env a j run_id proposal_id db ≡ ok (r, db')
    → DbIsValid db'
unfolding bind_run
bind_run-DbIsValid env a j run_id proposal_id db r db' f v h =
    elim (Result-cases (insert_job j db)) [
      | inr (x, e) ↦ absurd (ground (arith, e))
      | inl (db₁, e) ↦ elim (Result-cases (insert_model (fresh_model env j.id a) db₁)) [
        | inr (x, p) ↦ absurd (ground (arith, e, p))
        | inl (db₂, p) ↦ elim (Result-cases (insert_binding (bound j run_id proposal_id) db₂)) [
          | inr (x, q) ↦ absurd (ground (arith, e, p, q))
          | inl (db₃, q) ↦
              let v₁ = insert_job-DbIsValid j db db₁ f (ground arith) e v in
              let s₁ = insert_model-frame _ db₁ db₂ p in
              let s₂ = insert_binding-frame _ db₂ db₃ q in
              frame-DbIsValid db₁ db' (ground (arith, e, p, q, s₁, s₂))
                (ground (arith, e, p, q, s₁, s₂)) v₁
        ]
      ]
    ]

-- `enqueue_agent_run` keeps the invariant whenever it succeeds.
pub enqueue_agent_run-DbIsValid :
    (env : Env) (local : LocalConfig) (now new_id request_id task_id run_id proposal_id : ℕ)
    → (prompt : String) (limit : ℕ) (db : Db) (r : View) (db' : Db) → DbIsValid db
    → enqueue_agent_run env local now new_id request_id task_id run_id proposal_id prompt limit db
      ≡ ok (r, db')
    → DbIsValid db'
unfolding enqueue_agent_run
enqueue_agent_run-DbIsValid env local now new_id rid task_id run_id pid prompt limit db r db' v h =
    elim (Result-cases (prepare env local false (run_details prompt limit))) [
      | inr (x, e) ↦ absurd (ground (arith, e))
      | inl (a, e) ↦
          elim (Option-cases (find (λ (b : Binding). b.proposal_id == pid) db.bindings)) [
            | inl n ↦
                bind_run-DbIsValid env a (fresh_job now new_id rid task_id openai_text) run_id pid
                  db r db' (fresh_job-IsFresh now new_id rid task_id openai_text) v
                  (ground (arith, e, n))
            | inr (b, n) ↦ elim (Option-cases (job_of b.job_id db)) [
              | inl k ↦ absurd (ground (arith, e, n, k))
              | inr (row, k) ↦ let same : db' ≡ db = ground (arith, e, n, k) in rw same v
            ]
          ]
    ]
