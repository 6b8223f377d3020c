-- ===== src/Approvals/Creation.antt =====
-- src/leon_control_plane/store.py: `create_approval`, against the invariant of the store.
use leon_ai_assistant.Base.{
  ℕ, suc, [], ◌≡◌, refl, subst, false, ◌&&◌, not, List, ◌∷◌, Option, arith, String, str_eq, eq_iff,
  ◌==◌, any, map, length,
}
use leon_ai_assistant.Base.Keys.{Absent}
use leon_ai_assistant.Approvals.{Approval, Plan, Store, Env, approval_created, record_event}
use leon_ai_assistant.Approvals.Outcome.{
  did, require-did, >>=-did, or_refuse, or_refuse-did, did-pair, summary_required,
  rollback_required, secret_found, unknown_task, plan_rejected, names_exhausted,
}
use leon_ai_assistant.Approvals.Names.{free_name, free_name-free}
use leon_ai_assistant.Approvals.Create.{
  Expiry, completed, fingerprint, is_risky, parse_expiry, ids, fresh, create_approval, known_task,
  rejected_before, store_approval, checked_texts,
}
use leon_ai_assistant.Approvals.Invariant.{ApprovalIsValid, StoreIsValid}

-- `create_approval` adds one pending approval under an unused id.
pub record Creates (env : Env) (now : ℕ) (task : Option ℕ) (p : Plan) (by : String) (s s' : Store)
    (id : ℕ) (expires : Option ℕ) : Type 0 where
  pub unused : any (λ y. y == id) (ids s) ≡ false
  pub summary : str_eq p.summary "" ≡ false
  pub reason : str_eq p.reason "" ≡ false
  pub safe : (is_risky p.risk_class && str_eq p.rollback_plan "") ≡ false
  pub unrejected : rejected_before (fingerprint env p) s ≡ false
  pub result :
      s'
      ≡ record_event
          (approval_created id)
          (record s { approvals = fresh env now id task p expires by ∷ s.approvals })

abbrev pub search_id : (ℕ → ℕ) → Store → Option ℕ
search_id candidate s =
    free_name (λ x. any (λ y. y == x) (ids s)) candidate (suc (length s.approvals)) 0

-- The guards of a successful creation, with the values of its steps.
store-cases :
    (env : Env) (candidate : ℕ → ℕ) (now : ℕ) (task : Option ℕ) (p : Plan) (expiry : Expiry)
    → (by : String) (s s' : Store) (id : ℕ)
    → store_approval env candidate now task p expiry by s ≡ did (id, s')
    → (expires : Option ℕ) × Creates env now task p by s s' id expires
unfolding store_approval
store-cases env candidate now task p expiry by s s' id h =
    let (a, h₁) =
      require-did (not (str_eq p.summary "") && not (str_eq p.reason "")) summary_required h in
    let (t, _, h₂) = >>=-did (parse_expiry now expiry) h₁ in
    let (b, h₃) =
      require-did (not (is_risky p.risk_class && str_eq p.rollback_plan "")) rollback_required h₂ in
    let (_, h₄) =
      require-did (not (any env.contains_secret (checked_texts p by))) secret_found h₃ in
    let (_, h₅) = require-did (known_task task s) unknown_task h₄ in
    let (c, h₆) = require-did (not (rejected_before (fingerprint env p) s)) plan_rejected h₅ in
    let (i, n, h₇) = >>=-did (or_refuse (search_id candidate s) names_exhausted) h₆ in
    let (q, r) = did-pair h₇ in
    (
      t,
      record {
        unused =
            subst (λ k. any (λ y. y == k) (ids s) ≡ false) q
              (free_name-free (λ x. any (λ y. y == x) (ids s)) candidate (suc (length s.approvals))
                0 i (or_refuse-did (search_id candidate s) names_exhausted n));
        summary = ground (arith, a);
        reason = ground (arith, a);
        safe = ground (arith, b);
        unrejected = ground (arith, c);
        result =
            subst
              (λ k.
                s'
                ≡ record_event (approval_created k)
                    (record s { approvals = fresh env now k task p t by ∷ s.approvals }))
              q r;
      },
    )

pub create_approval-Creates :
    (env : Env) (candidate : ℕ → ℕ) (now : ℕ) (task : Option ℕ) (plan : Plan) (expiry : Expiry)
    → (by : String) (s s' : Store) (id : ℕ)
    → create_approval env candidate now task plan expiry by s ≡ did (id, s')
    → (expires : Option ℕ) × Creates env now task (completed plan) by s s' id expires
unfolding create_approval
create_approval-Creates env candidate now task plan expiry by s s' id h =
    store-cases env candidate now task (completed plan) expiry by s s' id h

unused-Absent :
    (id : ℕ) (rest : List Approval)
    → any (λ y. y == id) (map (λ (a : Approval). a.id) rest) ≡ false
    → Absent (λ (a : Approval). a.id) id rest
unused-Absent id [] h = tt
unused-Absent id (a ∷ rest) h = (ground arith, unused-Absent id rest (ground arith))

fresh-ApprovalIsValid :
    (env : Env) (now id : ℕ) (task : Option ℕ) (p : Plan) (expires : Option ℕ) (by : String)
    → str_eq p.summary "" ≡ false
    → str_eq p.reason "" ≡ false
    → (is_risky p.risk_class && str_eq p.rollback_plan "") ≡ false
    → ApprovalIsValid (fresh env now id task p expires by)
unfolding fresh
fresh-ApprovalIsValid env now id task p expires by a b c = record {
  counted = refl;
  summary = λ e. ground (arith, a, eq_iff p.summary "");
  reason = λ e. ground (arith, b, eq_iff p.reason "");
  rollback = λ r e. ground (arith, c, r, eq_iff p.rollback_plan "");
}

pub create_approval-StoreIsValid :
    (env : Env) (candidate : ℕ → ℕ) (now : ℕ) (task : Option ℕ) (plan : Plan) (expiry : Expiry)
    → (by : String) (s s' : Store) (id : ℕ) → StoreIsValid s
    → create_approval env candidate now task plan expiry by s ≡ did (id, s')
    → StoreIsValid s'
unfolding fresh
create_approval-StoreIsValid env candidate now task plan expiry by s s' id v h =
    let (t, c) = create_approval-Creates env candidate now task plan expiry by s s' id h in
    rw c.result (record {
      task_ids = v.task_ids;
      approval_ids = (unused-Absent id s.approvals c.unused, v.approval_ids);
      tasks = v.tasks;
      approvals = (
        fresh-ApprovalIsValid env now id task (completed plan) t by c.summary c.reason c.safe,
        v.approvals,
      );
    })
