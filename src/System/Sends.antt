-- ===== src/System/Sends.antt =====
-- src/leon_control_plane/model_work.py: sent requests and budgets along the steps of the system.
use leon_ai_assistant.Base.{
  ℕ, ◌≤◌, ◌≡◌, refl, sym, subst, inl, inr, ◌≢◌, true, false, List, Option, some, arith, All,
  All-map_of, All-both,
}
use leon_ai_assistant.Base.Keys.{Unique, by_key-update_self}
use leon_ai_assistant.Db.{Db, ModelRow, reconciled, unknown, ok, WorkerResult, model_of, is_local}
use leon_ai_assistant.Model.{Env, OpenAiConfig}
use leon_ai_assistant.Model.Ledger.{finish, outcome, Reply, is_pending, recorded}
use leon_ai_assistant.Model.Once.{finish-LedgerIsValid, finish-cases, outcome-affordable}
use leon_ai_assistant.Model.Budget.{finish-total-le}
use leon_ai_assistant.Model.Receipts.{ReceiptRow, Books, settled_books, settled_cost}
use leon_ai_assistant.Model.Reconcile.{
  reconcile-cases, settled_cost-keeps, settled_books-LedgerIsValid, settled_books-total-le,
}
use leon_ai_assistant.System.Receipts.{record_usage-Grounded}
use leon_ai_assistant.Work.Invariant.{DbIsValid}
use leon_ai_assistant.System.{
  World, Step, Reach, remove, here, next, enqueues, binds, controls, claims, checkpoints, begins,
  finishes_local, finishes, crashes, reconciles, records, elsewhere,
}
use leon_ai_assistant.System.Jobs.{Reach-DbIsValid}
use leon_ai_assistant.System.Flight.{still, control-Grounded, claim-Grounded, checkpoint-Grounded}
use leon_ai_assistant.System.Boarding.{enqueue-Grounded, enqueue_agent_run-Grounded}
use leon_ai_assistant.Model.Once.{recorded-keeps}
use leon_ai_assistant.System.Ledger.{
  Flying, eq-or-ne, WorldIsValid, other-Flying, Grounded-WorldIsValid,
}
use leon_ai_assistant.System.Launch.{begin-WorldIsValid}
use leon_ai_assistant.System.Flights.{flies-Flying, remove-All, remove-Unique}

-- After `finish` on a row, the flights of other jobs are as before.
finish-Flying :
    (id : ℕ) (r : WorkerResult) (m : ModelRow) (db : Db) (r' : WorkerResult) (db' : Db)
    → model_of id db ≡ some m
    → finish id m.request.payload r db ≡ ok (r', db')
    → (k : ℕ) → k ≢ id
    → Flying db k
    → Flying db' k
finish-Flying id r m db r' db' e h k n f = elim (finish-cases id r m db r' db' e h) [
  | inl (x, q) ↦ rw q f
  | inr (row, x, q) ↦
      other-Flying id (recorded m.request.payload r) db db' k (rw q refl)
        (recorded-keeps m.request.payload r) (λ p. n (sym p)) f
]

local-ne :
    (id : ℕ) (m : ModelRow) (db : Db) (k : ℕ)
    → model_of id db ≡ some m
    → is_local m.request.payload ≡ true
    → Flying db k
    → k ≢ id
local-ne id m db k e l f q = let f' = subst (Flying db) q f in ground (arith, f'.1, e, f'.2, l)

finish-WorldIsValid :
    (config : OpenAiConfig) (w : World) (env : Env) (id : ℕ) (o : Option Reply) (m : ModelRow)
    → (r : WorkerResult) (db' : Db) (ids : List ℕ) → WorldIsValid config w
    → model_of id w.db ≡ some m
    → finish id m.request.payload (outcome env m.request.payload o) w.db ≡ ok (r, db')
    → (is_local m.request.payload ≡ false → m.state ≢ reconciled → is_pending m.state ≡ true)
    → Unique (λ (x : ℕ). x) ids
    → All (Flying db') ids
    → WorldIsValid config (record { db = db'; in_flight = ids })
finish-WorldIsValid config w env id o m r db' ids v e h p d f =
    let out = outcome env m.request.payload o in
    let cheap = outcome-affordable env m.request.payload o in
    let t = finish-total-le id out m w.db r db' v.ledger e cheap p h in
    record {
      ledger = finish-LedgerIsValid id out m w.db r db' v.ledger e cheap p h;
      budget = omega (arith, t, v.budget);
      distinct = d;
      flying = f;
    }

-- A request that is settled by its receipt while its worker may still be waiting.
settled-Flying :
    (db : Db) (receipts : List ReceiptRow) (id cost : ℕ) (m : ModelRow) (k : ℕ)
    → model_of id db ≡ some m
    → Flying db k
    → Flying (settled_books id cost (record { db = db; receipts = receipts })).db k
unfolding settled_cost
settled-Flying db receipts id cost m k e f = elim (eq-or-ne id k) [
  | inr n ↦
      other-Flying id (settled_cost cost) db
        (settled_books id cost (record { db = db; receipts = receipts })).db k refl
        (settled_cost-keeps cost) n f
  | inl q ↦
      let (n, g, p, _) = subst (Flying db) (sym q) f in
      let same : n ≡ m = ground (arith, g, e) in
      subst (Flying (settled_books id cost (record { db = db; receipts = receipts })).db) q (
        settled_cost cost m,
        by_key-update_self (λ (x : ModelRow). x.job_id) id (settled_cost cost) m db.models
            (settled_cost-keeps cost) e,
        subst (λ (x : ModelRow). is_local x.request.payload ≡ false) same p,
        λ r. absurd (r refl),
      )
]

settled_books-WorldIsValid :
    (config : OpenAiConfig) (w : World) (receipts : List ReceiptRow) (id cost : ℕ) (m : ModelRow)
    → WorldIsValid config w
    → model_of id w.db ≡ some m
    → m.state ≡ unknown
    → cost ≤ m.held
    → WorldIsValid config (record {
      db = (settled_books id cost (record { db = w.db; receipts = receipts })).db;
      in_flight = w.in_flight;
    })
settled_books-WorldIsValid config w receipts id cost m v e s le =
    let b : Books = record { db = w.db; receipts = receipts } in
    let t = settled_books-total-le id cost m b v.ledger e le in
    record {
      ledger = settled_books-LedgerIsValid id cost m b v.ledger e s le;
      budget = omega (arith, t, v.budget);
      distinct = v.distinct;
      flying =
          All-map_of (Flying w.db) (Flying (settled_books id cost b).db) w.in_flight
            (λ k. settled-Flying w.db receipts id cost m k e) v.flying;
    }

Step-WorldIsValid :
    (config : OpenAiConfig) (w u : World)
    → DbIsValid w.db
    → WorldIsValid config w
    → Step config w u
    → WorldIsValid config u
Step-WorldIsValid config w u q v (enqueues env local now i t k n d r db' e) =
    Grounded-WorldIsValid config w db' (enqueue-Grounded env local now i t k n d w.db r db' e) v
Step-WorldIsValid config w u q v (binds env local now i k t run p x n r db' e) =
    Grounded-WorldIsValid config w db'
      (enqueue_agent_run-Grounded env local now i k t run p x n w.db r db' e) v
Step-WorldIsValid config w u q v (controls now id a r db' e) =
    Grounded-WorldIsValid config w db' (control-Grounded now id a w.db r db' e) v
Step-WorldIsValid config w u q v (claims now token ready) =
    Grounded-WorldIsValid config w _ (claim-Grounded now token ready w.db) v
Step-WorldIsValid config w u q v (checkpoints env now c r b db' e) =
    Grounded-WorldIsValid config w db' (checkpoint-Grounded env now c r w.db b db' q e) v
Step-WorldIsValid config w u q v (begins env local now c b db' e) =
    begin-WorldIsValid env config local now c w b db' v e
Step-WorldIsValid config w u q v (finishes_local env id o m r db' e l h) =
    finish-WorldIsValid config w env id o m r db' w.in_flight v e h (λ p. cc (p, l)) v.distinct
      (All-map_of (Flying w.db) (Flying db') w.in_flight
        (λ k f. finish-Flying id _ m w.db r db' e h k (local-ne id m w.db k e l f) f) v.flying)
Step-WorldIsValid config w u q v (finishes env id o m r db' e a h) =
    let (n, x, y, z) = flies-Flying w.db id w.in_flight a v.flying in
    let same : n ≡ m = ground (arith, e, x) in
    let (d, apart) = remove-Unique id w.in_flight v.distinct in
    finish-WorldIsValid config w env id o m r db' (remove id w.in_flight) v e h
      (λ p s. subst (λ (n : ModelRow). n.state ≢ reconciled → is_pending n.state ≡ true) same z s) d
      (All-map_of (λ k. (k ≢ id) × Flying w.db k) (Flying db') (remove id w.in_flight)
        (λ k f. finish-Flying id _ m w.db r db' e h k f.0 f.1)
        (All-both (λ k. k ≢ id) (Flying w.db) (remove id w.in_flight) apart
          (remove-All (Flying w.db) id w.in_flight v.flying)))
Step-WorldIsValid config w u q v (crashes id) = record {
  ledger = v.ledger;
  budget = v.budget;
  distinct = (remove-Unique id w.in_flight v.distinct).0;
  flying = remove-All (Flying w.db) id w.in_flight v.flying;
}
Step-WorldIsValid config w u q v (reconciles env h id digest a receipts r b' e) =
    let b : Books = record { db = w.db; receipts = receipts } in
    let (j, m, row, cost, p, _, _, s) = reconcile-cases env h id digest a b b' r e in
    elim s [
      | inl (_, z) ↦ rw z v
      | inr (un, le, z) ↦
          rw z (settled_books-WorldIsValid config w receipts id cost m v p.row un le)
    ]
Step-WorldIsValid config w u q v (records env h id p o receipts b' e) =
    Grounded-WorldIsValid config w b'.db
      (record_usage-Grounded env h id p o (record { db = w.db; receipts = receipts }) b' e) v
Step-WorldIsValid config w u q v (elsewhere db' j c m a) =
    Grounded-WorldIsValid config w db' (still m (inl a)) v

-- Whatever workers, users and the clock do to jobs, requests and receipts, reconciliations included, from a
-- valid state: the ledger stays valid, so each paid
-- request was sent at most once and an unanswered one on its way still has its money held; all money
-- held and charged is within the total budget; and no job has two paid requests in flight.
pub Reach-WorldIsValid :
    (config : OpenAiConfig) (w u : World)
    → DbIsValid w.db
    → WorldIsValid config w
    → Reach config w u
    → WorldIsValid config u
Reach-WorldIsValid config w u q v here = v
Reach-WorldIsValid config w u q v (next {u = m} r s) =
    Step-WorldIsValid config m u (Reach-DbIsValid config w m q r)
      (Reach-WorldIsValid config w m q v r) s
