-- ===== src/Model/Reconcile.antt =====
-- src/leon_control_plane/model_receipts.py: what a reconciliation does to the ledger.
use leon_ai_assistant.Base.{
  ℕ, ◌≤◌, ◌≡◌, refl, sym, ◌∙◌, ap, subst, ◌⊎◌, inl, inr, Bool, true, false, ◌&&◌, not, List, some,
  ◌==◌, leb, arith, Bool-cases, if◌then◌else◌,
}
use leon_ai_assistant.Base.Rows.{total}
use leon_ai_assistant.Base.Keys.{total-update}
use leon_ai_assistant.Db.{
  Job, ModelRow, ModelState, unknown, reconciled, ok, or_fault-found, require-passed, >>=-ok,
  ok-injective, ok-pair, job_of, model_of, model_cost_reconciled, Event,
}
use leon_ai_assistant.Model.{Env}
use leon_ai_assistant.Model.Ledger.{parse_usage, is_unknown, spent}
use leon_ai_assistant.Model.Rows.{LedgerIsValid, RowIsValid, quiet-RowIsValid}
use leon_ai_assistant.Model.Once.{row-LedgerIsValid}
use leon_ai_assistant.Model.Receipts.{
  to_reply, Receipt, ReceiptRow, Books, receipt_of, is_state, is_reconciled, replayed, belongs,
  Proposal, settled_cost, proposal, settled_books, reconciled_books, reconcile,
}
use leon_ai_assistant.Work.{View, view}

module _ (env : Env) (digest_of : Receipt → ℕ) where
  -- What `_proposal` has checked when it answers.
  pub record Proposes (id : ℕ) (b : Books) (j : Job) (m : ModelRow) (r : ReceiptRow) (cost : ℕ)
      : Type 0 where
    pub job : job_of id b.db ≡ some j
    pub row : model_of id b.db ≡ some m
    pub receipt : receipt_of id b ≡ some r
    pub state : is_state m.state ≡ true
    pub digest : (digest_of r.receipt == r.digest) ≡ true
    pub approval : (env.digest m.request == m.digest) ≡ true
    pub same : belongs id j m r.receipt ≡ true
    pub usage : parse_usage m.request.payload (to_reply (replayed r.receipt)) ≡ some cost
    pub accounted : (r.receipt.accounted == cost) ≡ true
    pub held : (is_unknown m.state && not (leb cost m.held)) ≡ false

  abbrev answer : ReceiptRow → ℕ → ModelRow → Proposal
  answer r cost m = record { digest = r.digest; accounted = cost; state = m.state }

  pub proposal-intro :
      (id : ℕ) (b : Books) (j : Job) (m : ModelRow) (r : ReceiptRow) (cost : ℕ)
      → Proposes id b j m r cost
      → proposal env digest_of id b ≡ ok (answer r cost m)
  unfolding proposal
  proposal-intro id b j m r cost p = ground (
    arith, p.job, p.row, p.receipt, p.state, p.digest, p.approval, p.same, p.usage, p.accounted,
    p.held,
  )

  proposal-cases :
      (id : ℕ) (b : Books) (q : Proposal)
      → proposal env digest_of id b ≡ ok q
      → (j : Job) × (m : ModelRow) × (r : ReceiptRow) × (cost : ℕ) × Proposes id b j m r cost
        × (q ≡ answer r cost m)
  unfolding proposal
  proposal-cases id b q h =
      let (j, ej, h1) = or_fault-found (job_of id b.db) _ _ q h in
      let (m, em, h2) = or_fault-found (model_of id b.db) _ _ q h1 in
      let (r, er, h3) = or_fault-found (receipt_of id b) _ _ q h2 in
      let (state, h4) = require-passed (is_state m.state) _ _ q h3 in
      let (digest, h5) = require-passed (digest_of r.receipt == r.digest) _ _ q h4 in
      let (approval, h6) = require-passed (env.digest m.request == m.digest) _ _ q h5 in
      let (same, h7) = require-passed (belongs id j m r.receipt) _ _ q h6 in
      let (cost, usage, h8) =
        or_fault-found (parse_usage m.request.payload (to_reply (replayed r.receipt))) _ _ q h7 in
      let (accounted, h9) = require-passed (r.receipt.accounted == cost) _ _ q h8 in
      let (held, h10) =
        require-passed (not (is_unknown m.state && not (leb cost m.held))) _ _ q h9 in
      (
        j,
        m,
        r,
        cost,
        record {
          job = ej;
          row = em;
          receipt = er;
          state = state;
          digest = digest;
          approval = approval;
          same = same;
          usage = usage;
          accounted = accounted;
          held = ground (arith, held);
        },
        sym (ok-injective (answer r cost m) q h10),
      )

-- A cost that the held money covers keeps the row valid.
settled_cost-RowIsValid :
    (events : List Event) (cost : ℕ) (m : ModelRow)
    → m.state ≡ unknown
    → cost ≤ m.held
    → RowIsValid events m
    → RowIsValid events (settled_cost cost m)
unfolding settled_cost
settled_cost-RowIsValid events cost m s le v = record {
  once = v.once;
  unsent = λ p q. cc;
  untouched = λ q. cc;
  answered = λ q. refl;
  covered = λ p. ground (arith, le, v.covered p);
  reserved = λ p q. cc;
  free = λ p. ground (arith, le, v.free p);
}

pub settled_cost-keeps : (cost : ℕ) (m : ModelRow) → (settled_cost cost m).job_id ≡ m.job_id
unfolding settled_cost
settled_cost-keeps cost m = refl

is_unknown-eq : (s : ModelState) → is_state s ≡ true → is_reconciled s ≡ false → s ≡ unknown
is_unknown-eq s h k = ground arith

abbrev Settles : ModelRow → ℕ → ℕ → Books → Books → Type 0
Settles m cost id b b' =
    ((m.state ≡ reconciled) × (b' ≡ b))
    ⊎ ((m.state ≡ unknown) × (cost ≤ m.held) × (b' ≡ settled_books id cost b))

settles :
    (m : ModelRow) (cost id : ℕ) (b b' : Books) (r : ReceiptRow)
    → is_state m.state ≡ true
    → (is_unknown m.state && not (leb cost m.held)) ≡ false
    → b' ≡ reconciled_books id (record { digest = r.digest; accounted = cost; state = m.state }) b
    → Settles m cost id b b'
unfolding reconciled_books
settles m cost id b b' r s h e = elim (Bool-cases (is_reconciled m.state)) [
  | inl k ↦ inl (ground (arith, k), ground (arith, k, e))
  | inr k ↦
      let u = is_unknown-eq m.state s k in
      inr (u, ground (arith, u, h), e ∙ ap (λ z. if z then b else settled_books id cost b) k)
]

==-eq : (a b : ℕ) → (a == b) ≡ true → a ≡ b
==-eq a b h = ground (arith, h)

-- What a reconciliation that answers has done.
pub reconcile-cases :
    (env : Env) (digest_of : Receipt → ℕ) (id digest : ℕ) (approved : Bool) (b b' : Books)
    (w : View)
    → reconcile env digest_of id digest approved b ≡ ok (w, b')
    → (j : Job) × (m : ModelRow) × (r : ReceiptRow) × (cost : ℕ) × Proposes env digest_of id b j m r
        cost
      × (digest ≡ r.digest)
      × (approved ≡ true)
      × Settles m cost id b b'
unfolding reconcile
reconcile-cases env digest_of id digest approved b b' w h =
    let (allowed, h1) = require-passed approved _ _ (w, b') h in
    let (q, eq, h2) = >>=-ok (proposal env digest_of id b) _ (w, b') h1 in
    let (current, h3) = require-passed (digest == q.digest) _ _ (w, b') h2 in
    let (j, ej, h4) = or_fault-found (job_of id b.db) _ _ (w, b') h3 in
    let (i, m, r, cost, p, qe) = proposal-cases env digest_of id b q eq in
    let result : b' ≡ reconciled_books id q b =
      sym (ok-pair (view (reconciled_books id q b).db j) w (reconciled_books id q b) b' h4) in
    (
      i,
      m,
      r,
      cost,
      p,
      ==-eq digest r.digest (subst (λ z. (digest == z.digest) ≡ true) qe current),
      allowed,
      settles m cost id b b' r p.state p.held (result ∙ ap (λ z. reconciled_books id z b) qe),
    )

pub settled_books-LedgerIsValid :
    (id cost : ℕ) (m : ModelRow) (b : Books)
    → LedgerIsValid b.db
    → model_of id b.db ≡ some m
    → m.state ≡ unknown
    → cost ≤ m.held
    → LedgerIsValid (settled_books id cost b).db
settled_books-LedgerIsValid id cost m b v e s le =
    row-LedgerIsValid id m (settled_cost cost) (model_cost_reconciled id) b.db
      (settled_books id cost b).db refl refl (settled_cost-keeps cost) e (λ k n. refl)
      (λ w. quiet-RowIsValid _ _ _ refl (settled_cost-RowIsValid b.db.audit cost m s le w)) v

pub settled_books-total-le :
    (id cost : ℕ) (m : ModelRow) (b : Books)
    → LedgerIsValid b.db
    → model_of id b.db ≡ some m
    → cost ≤ m.held
    → total spent (settled_books id cost b).db.models ≤ total spent b.db.models
unfolding settled_cost
settled_books-total-le id cost m b v e le =
    let t =
      total-update (λ (n : ModelRow). n.job_id) spent id m (settled_cost cost) b.db.models v.unique
        e in
    omega (arith, t, le)

-- From a valid ledger, a reconciliation that answers was approved for the receipt that is stored, keeps
-- the ledger valid, and never raises the money that is held or charged.
pub reconcile-LedgerIsValid :
    (env : Env) (digest_of : Receipt → ℕ) (id digest : ℕ) (approved : Bool) (b b' : Books)
    (w : View)
    → LedgerIsValid b.db
    → reconcile env digest_of id digest approved b ≡ ok (w, b')
    → (approved ≡ true)
      × ((r : ReceiptRow) × (receipt_of id b ≡ some r) × (r.digest ≡ digest))
      × LedgerIsValid b'.db
      × (total spent b'.db.models ≤ total spent b.db.models)
reconcile-LedgerIsValid env digest_of id digest approved b b' w v h =
    let (j, m, r, cost, p, same, allowed, s) =
      reconcile-cases env digest_of id digest approved b b' w h in
    let (valid, le) : LedgerIsValid b'.db × (total spent b'.db.models ≤ total spent b.db.models) =
      elim s [
        | inl (_, e) ↦ rw e (v, omega arith)
        | inr (u, le, e) ↦ rw e (
          settled_books-LedgerIsValid id cost m b v p.row u le,
          settled_books-total-le id cost m b v p.row le,
        )
      ] in
    (allowed, (r, p.receipt, sym same), valid, le)
