-- ===== src/System/Arrivals.antt =====
-- src/leon_control_plane/work_queue.py: what `enqueue` and `enqueue_agent_run` may do to the table work_jobs.
use leon_ai_assistant.Base.{
  ℕ, ◌≡◌, refl, inl, inr, false, Option, none, some, arith, Option-cases, ◌==◌, String,
}
use leon_ai_assistant.Base.Rows.{find}
use leon_ai_assistant.Db.{Db, Job, Approved, Kind, openai_text, ok, Result-cases, job_of, Binding}
use leon_ai_assistant.Model.{Env, LocalConfig, Details, prepare}
use leon_ai_assistant.Work.{View, insert_job, insert_model, insert_binding, is_model}
use leon_ai_assistant.Work.Enqueue.{
  enqueue, enqueue_agent_run, admit, add_model, prepared, bind_run, fresh_model, fresh_job, bound,
  run_details,
}
use leon_ai_assistant.Work.Admit.{
  insert_model-frame, insert_binding-frame, add_model-frame, repeated-same,
}
use leon_ai_assistant.Work.Fresh.{insert_job-free}
use leon_ai_assistant.System.Moves.{Moves, same, added}

insert-Moves :
    (j : Job) (db db₁ db' : Db) → insert_job j db ≡ ok db₁ → db'.jobs ≡ db₁.jobs → Moves none db db'
insert-Moves j db db₁ db' e s =
    let (free, q) = insert_job-free j db db₁ e in added j free (ground (arith, s, q))

admit-Moves :
    (env : Env) (a : Option Approved) (j : Job) (db : Db) (r : View) (db' : Db)
    → admit env a j db ≡ ok (r, db')
    → Moves none db db'
unfolding admit
admit-Moves env a j db r db' h = elim (Result-cases (insert_job j db)) [
  | inr (x, e) ↦ absurd (ground (arith, e))
  | inl (db₁, e) ↦ elim (Result-cases (add_model env j.id a db₁)) [
    | inr (x, p) ↦ absurd (ground (arith, e, p))
    | inl (db₂, p) ↦
        insert-Moves j db db₁ db' e (ground (arith, e, p, add_model-frame env j.id a db₁ db₂ p))
  ]
]

pub enqueue-Moves :
    (env : Env) (local : LocalConfig) (now new_id task_id : ℕ) (request_id : Option ℕ)
    → (kind : Option Kind) (d : Option Details) (db : Db) (r : View) (db' : Db)
    → enqueue env local now new_id task_id request_id kind d db ≡ ok (r, db')
    → Moves none db db'
unfolding enqueue
enqueue-Moves env local now new_id task_id rid none d db r db' h = absurd (ground arith)
enqueue-Moves env local now new_id task_id none (some kind) d db r db' h = absurd (ground arith)
enqueue-Moves env local now new_id task_id (some q) (some kind) d db r db' h =
    elim (Result-cases (prepared env local (is_model kind) d)) [
      | inr (x, e) ↦ absurd (ground (arith, e))
      | inl (a, e) ↦ elim (Option-cases (find (λ (j : Job). j.request_id == q) db.jobs)) [
        | inl n ↦
            admit-Moves env a (fresh_job now new_id q task_id kind) db r db' (ground (arith, e, n))
        | inr (row, n) ↦
            let s = repeated-same a task_id kind row db r db' (ground (arith, e, n)) in
            same (rw s refl)
      ]
    ]

bind_run-Moves :
    (env : Env) (a : Approved) (j : Job) (run_id proposal_id : ℕ) (db : Db) (r : View) (db' : Db)
    → bind_run env a j run_id proposal_id db ≡ ok (r, db')
    → Moves none db db'
unfolding bind_run
bind_run-Moves env a j run_id proposal_id db r db' h = elim (Result-cases (insert_job j db)) [
  | inr (x, e) ↦ absurd (ground (arith, e))
  | inl (db₁, e) ↦ elim (Result-cases (insert_model (fresh_model env j.id a) db₁)) [
    | inr (x, p) ↦ absurd (ground (arith, e, p))
    | inl (db₂, p) ↦ elim (Result-cases (insert_binding (bound j run_id proposal_id) db₂)) [
      | inr (x, q) ↦ absurd (ground (arith, e, p, q))
      | inl (db₃, q) ↦
          let s₁ = insert_model-frame _ db₁ db₂ p in
          let s₂ = insert_binding-frame _ db₂ db₃ q in
          insert-Moves j db db₁ db' e (ground (arith, e, p, q, s₁, s₂))
    ]
  ]
]

pub enqueue_agent_run-Moves :
    (env : Env) (local : LocalConfig) (now new_id request_id task_id run_id proposal_id : ℕ)
    → (prompt : String) (limit : ℕ) (db : Db) (r : View) (db' : Db)
    → enqueue_agent_run env local now new_id request_id task_id run_id proposal_id prompt limit db
      ≡ ok (r, db')
    → Moves none db db'
unfolding enqueue_agent_run
enqueue_agent_run-Moves env local now new_id rid task_id run_id pid prompt limit db r db' h =
    elim (Result-cases (prepare env local false (run_details prompt limit))) [
      | inr (x, e) ↦ absurd (ground (arith, e))
      | inl (a, e) ↦
          elim (Option-cases (find (λ (b : Binding). b.proposal_id == pid) db.bindings)) [
            | inl n ↦
                bind_run-Moves env a (fresh_job now new_id rid task_id openai_text) run_id pid db r
                  db' (ground (arith, e, n))
            | inr (b, n) ↦ elim (Option-cases (job_of b.job_id db)) [
              | inl k ↦ absurd (ground (arith, e, n, k))
              | inr (row, k) ↦ same (ground (arith, e, n, k))
            ]
          ]
    ]
