-- ===== src/System/Receipts.antt =====
-- src/leon_control_plane/model_receipts.py: recording a usage and reconciling a receipt, while requests are in
-- flight.
use leon_ai_assistant.Base.{
  ℕ, ◌≡◌, refl, inl, inr, Bool, arith, Option-cases, Bool-cases, ◌==◌, is_some, ◌&&◌,
}
use leon_ai_assistant.Db.{
  Payload, ok, or_fault-found, require-passed, job_of, model_of, model_usage_observed,
}
use leon_ai_assistant.Model.{Env, same_payload}
use leon_ai_assistant.Model.Ledger.{parse_usage}
use leon_ai_assistant.Model.Receipts.{
  Receipt, Observed, Books, to_reply, receipt_of, store_receipt, record_usage, reconcile,
  fresh_receipt,
}
use leon_ai_assistant.Model.Reconcile.{reconcile-cases}
use leon_ai_assistant.Work.{View}
use leon_ai_assistant.System.Flight.{Grounded, still}

pub reconcile-frame :
    (env : Env) (digest_of : Receipt → ℕ) (id digest : ℕ) (approved : Bool) (b b' : Books)
    (w : View)
    → reconcile env digest_of id digest approved b ≡ ok (w, b')
    → (b'.db.jobs ≡ b.db.jobs) × (b'.db.checkpoints ≡ b.db.checkpoints)
reconcile-frame env digest_of id digest approved b b' w h =
    let (j, m, r, cost, p, same, allowed, s) =
      reconcile-cases env digest_of id digest approved b b' w h in
    elim s [ inl (_, e) ↦ rw e (refl, refl) | inr (_, _, e) ↦ rw e (refl, refl) ]

-- The database after a receipt is stored.
record Stores (b b' : Books) : Type 0 where
  jobs : b'.db.jobs ≡ b.db.jobs
  checkpoints : b'.db.checkpoints ≡ b.db.checkpoints
  grounded : Grounded b.db b'.db

store_receipt-Stores :
    (env : Env) (digest_of : Receipt → ℕ) (id : ℕ) (r : Receipt) (b b' : Books)
    → store_receipt env digest_of id r b ≡ ok b'
    → Stores b b'
unfolding store_receipt
store_receipt-Stores env digest_of id r b b' h = elim (Option-cases (receipt_of id b)) [
  | inl e ↦ record {
    jobs = ground (arith, e);
    checkpoints = ground (arith, e);
    grounded =
        still (ground (arith, e)) (inr (model_usage_observed id, λ k. refl, ground (arith, e)));
  }
  | inr (old, e) ↦ elim (Bool-cases (old.digest == digest_of r)) [
    | inl q ↦ record {
      jobs = ground (arith, e, q);
      checkpoints = ground (arith, e, q);
      grounded = still (ground (arith, e, q)) (inl (ground (arith, e, q)));
    }
    | inr q ↦ absurd (ground (arith, e, q))
  ]
]

record_usage-Stores :
    (env : Env) (digest_of : Receipt → ℕ) (id : ℕ) (p : Payload) (o : Observed) (b b' : Books)
    → record_usage env digest_of id p o b ≡ ok b'
    → Stores b b'
unfolding record_usage
record_usage-Stores env digest_of id p o b b' h =
    let (cost, _, h1) = or_fault-found (parse_usage p (to_reply o)) _ _ b' h in
    let (j, _, h2) = or_fault-found (job_of id b.db) _ _ b' h1 in
    let (m, _, h3) = or_fault-found (model_of id b.db) _ _ b' h2 in
    let (_, h4) =
      require-passed (is_some m.sent_at && same_payload m.request.payload p) _ _ b' h3 in
    store_receipt-Stores env digest_of id (fresh_receipt j m o cost) b b' h4

pub record_usage-frame :
    (env : Env) (digest_of : Receipt → ℕ) (id : ℕ) (p : Payload) (o : Observed) (b b' : Books)
    → record_usage env digest_of id p o b ≡ ok b'
    → (b'.db.jobs ≡ b.db.jobs) × (b'.db.checkpoints ≡ b.db.checkpoints)
record_usage-frame env digest_of id p o b b' h =
    let s = record_usage-Stores env digest_of id p o b b' h in (s.jobs, s.checkpoints)

pub record_usage-Grounded :
    (env : Env) (digest_of : Receipt → ℕ) (id : ℕ) (p : Payload) (o : Observed) (b b' : Books)
    → record_usage env digest_of id p o b ≡ ok b'
    → Grounded b.db b'.db
record_usage-Grounded env digest_of id p o b b' h =
    (record_usage-Stores env digest_of id p o b b' h).grounded
