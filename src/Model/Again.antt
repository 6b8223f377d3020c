-- ===== src/Model/Again.antt =====
-- src/leon_control_plane/model_receipts.py: reconciling a receipt, and reconciling it again.
use leon_ai_assistant.Base.{
  ℕ, ◌≡◌, refl, ◌∙◌, ap, inl, inr, Bool, true, arith, if◌then◌else◌, ==_refl,
}
use leon_ai_assistant.Base.Keys.{by_key-update_self}
use leon_ai_assistant.Db.{Job, ModelRow, ok}
use leon_ai_assistant.Model.{Env}
use leon_ai_assistant.Model.Receipts.{
  Receipt, ReceiptRow, Books, settled_cost, settled_books, reconciled_books, reconcile,
  is_reconciled,
}
use leon_ai_assistant.Model.Reconcile.{
  Proposes, proposal-intro, reconcile-cases, settled_cost-keeps,
}
use leon_ai_assistant.Work.{View, view}

module _ (env : Env) (digest_of : Receipt → ℕ) where
  pub reconcile-intro :
      (id : ℕ) (b : Books) (j : Job) (m : ModelRow) (r : ReceiptRow) (cost : ℕ)
      → Proposes env digest_of id b j m r cost
      → (w : View) × (reconcile env digest_of id r.digest true b
          ≡ ok (w, (if is_reconciled m.state then b else settled_books id cost b)))
  unfolding reconcile reconciled_books
  reconcile-intro id b j m r cost p = (
    view
        (reconciled_books id (record { digest = r.digest; accounted = cost; state = m.state }) b).db
        j,
    ground (arith, proposal-intro env digest_of id b j m r cost p, ==_refl r.digest, p.job),
  )

  pub settled-Proposes :
      (id : ℕ) (b : Books) (j : Job) (m : ModelRow) (r : ReceiptRow) (cost : ℕ)
      → Proposes env digest_of id b j m r cost
      → Proposes env digest_of id (settled_books id cost b) j (settled_cost cost m) r cost
  unfolding settled_cost
  settled-Proposes id b j m r cost p = record {
    job = p.job;
    row =
        by_key-update_self (λ (n : ModelRow). n.job_id) id (settled_cost cost) m b.db.models
          (settled_cost-keeps cost) p.row;
    receipt = p.receipt;
    state = refl;
    digest = p.digest;
    approval = p.approval;
    same = p.same;
    usage = p.usage;
    accounted = p.accounted;
    held = refl;
  }

  -- A reconciliation that answered answers again to the same receipt, and then changes nothing.
  pub reconcile_twice :
      (id digest : ℕ) (approved : Bool) (b b' : Books) (w : View)
      → reconcile env digest_of id digest approved b ≡ ok (w, b')
      → (w' : View) × (reconcile env digest_of id digest true b' ≡ ok (w', b'))
  unfolding settled_cost
  reconcile_twice id digest approved b b' w h =
      let (j, m, r, cost, p, same, allowed, s) =
        reconcile-cases env digest_of id digest approved b b' w h in
      elim s [
        | inl (k, e) ↦
            let (w', q) = reconcile-intro id b j m r cost p in
            (
              w',
              rw (e, same)
                  (q
                    ∙ ap (λ x. ok (w', (if is_reconciled x then b else settled_books id cost b)))
                        k),
            )
        | inr (u, le, e) ↦
            let (w', q) =
              reconcile-intro id (settled_books id cost b) j (settled_cost cost m) r cost
                (settled-Proposes id b j m r cost p) in
            (w', rw (e, same) q)
      ]
