-- ===== src/Approvals/Gate.antt =====
-- src/leon_control_plane/store.py: what an approval gates, and what becomes of a rejected plan.
use leon_ai_assistant.Base.{
  ℕ, suc, ◌≡◌, ◌≢◌, refl, inl, inr, true, ◌&&◌, ◌||◌, not, List, [], ◌∷◌, Option, none, some, arith,
  Option-cases, String, ◌==◌, any, map, length, is_some, ==_refl,
}
use leon_ai_assistant.Base.Rows.{find}
use leon_ai_assistant.Db.{TaskStatus, waiting_for_approval, active, done}
use leon_ai_assistant.Approvals.{
  TaskRow, Approval, consumed, Plan, Store, Env, task_of, approval_of, is_consumed, is_rejected,
}
use leon_ai_assistant.Approvals.Outcome.{
  did, require-did, >>=-did, invalid_transition, reopen_required, consumed_required,
}
use leon_ai_assistant.Approvals.Tasks.{
  Change, same, serves, check_approval, checked, validate_task_transition, baseline,
  update_task_status,
}
use leon_ai_assistant.Approvals.Names.{free_name, free_name-ne-none}
use leon_ai_assistant.Approvals.Create.{
  Expiry, create_approval, ids, completed, fingerprint, rejected_before,
}
use leon_ai_assistant.Approvals.Keep.{update_task_status-Retasks}
use leon_ai_assistant.Approvals.Creation.{create_approval-Creates}

-- The approval that opened a gate.
pub record Opens (task : ℕ) (given : Option ℕ) (s : Store) (id : ℕ) (a : Approval) : Type 0 where
  pub named : given ≡ some id
  pub found : approval_of id s ≡ some a
  pub used : a.status ≡ consumed
  pub own : serves task a.task_id ≡ true

check_approval-Opens :
    (task : ℕ) (given : Option ℕ) (s : Store)
    → check_approval is_consumed consumed_required task given s ≡ did tt
    → (id : ℕ) × (a : Approval) × Opens task given s id a
unfolding check_approval
check_approval-Opens task none s h = absurd (cc h)
check_approval-Opens task (some id) s h = elim (Option-cases (approval_of id s)) [
  | inl e ↦ absurd (ground (arith, e))
  | inr (a, e) ↦
      (id, a, record { named = refl; found = e; used = ground (arith, e); own = ground (arith, e) })
]

checked-Opens :
    (task : ℕ) (c : Change) (s : Store)
    → checked task waiting_for_approval active c s ≡ did tt
    → check_approval is_consumed consumed_required task c.approval_id s ≡ did tt
unfolding checked
checked-Opens task c s h =
    let (_, h₁) = require-did (baseline waiting_for_approval active) invalid_transition h in
    let (_, h₂) =
      require-did
        (not (
          (same waiting_for_approval done || same waiting_for_approval TaskStatus.rejected)
          && same active TaskStatus.planned
          && not c.reopen))
        reopen_required h₁ in
    let (u, e, _) =
      >>=-did (check_approval is_consumed consumed_required task c.approval_id s) h₂ in
    e

-- A task leaves `waiting_for_approval` for `active` only under a consumed approval that is named and is
-- not attached to another task.
pub activation_needs_approval :
    (env : Env) (now id : ℕ) (c : Change) (s s' : Store) (t : TaskRow)
    → task_of id s ≡ some t
    → t.status ≡ waiting_for_approval
    → update_task_status env now id (some active) c s ≡ did s'
    → (k : ℕ) × (a : Approval) × Opens id c.approval_id s k a
unfolding validate_task_transition
activation_needs_approval env now id c s s' t e w h =
    let (x, r) = update_task_status-Retasks env now id active c s s' h in
    let q : x.status ≡ waiting_for_approval = ground (arith, r.found, e, w) in
    check_approval-Opens id c.approval_id s (checked-Opens id c s (rw q at r.valid))

rejected-found :
    (f id : ℕ) (a : Approval) (rest : List Approval)
    → find (λ (x : Approval). x.id == id) rest ≡ some a
    → is_rejected a.status ≡ true
    → a.fingerprint ≡ f
    → is_some (find (λ (x : Approval). is_rejected x.status && x.fingerprint == f) rest) ≡ true
unfolding find
rejected-found f id a [] e r q = absurd (ground arith)
rejected-found f id a (x ∷ rest) e r q = ground (arith, ==_refl f, rejected-found f id a rest)

-- While an approval is rejected, no approval can be created for a plan with its fingerprint.
pub rejected_plan_refused :
    (env : Env) (candidate : ℕ → ℕ) (now : ℕ) (task : Option ℕ) (plan : Plan) (expiry : Expiry)
    → (by : String) (s s' : Store) (k id : ℕ) (a : Approval) → approval_of k s ≡ some a
    → is_rejected a.status ≡ true
    → a.fingerprint ≡ fingerprint env (completed plan)
    → create_approval env candidate now task plan expiry by s ≢ did (id, s')
unfolding rejected_before
rejected_plan_refused env candidate now task plan expiry by s s' k id a e r q h =
    let (t, c) = create_approval-Creates env candidate now task plan expiry by s s' id h in
    let f = rejected-found (fingerprint env (completed plan)) k a s.approvals e r q in
    cc (f, c.unrejected)

length-ids : (rest : List Approval) → length (map (λ (a : Approval). a.id) rest) ≡ length rest
length-ids [] = refl
length-ids (a ∷ rest) = omega (arith, length-ids rest)

-- If the candidate ids are distinct, the search of `create_approval` for an unused id ends with one
-- within as many rounds as there are approvals, and one more.
pub search_total :
    (candidate : ℕ → ℕ) (s : Store)
    → ((i j : ℕ) → candidate i ≡ candidate j → i ≡ j)
    → free_name (λ x. any (λ y. y == x) (ids s)) candidate (suc (length s.approvals)) 0 ≢ none
search_total candidate s inj =
    free_name-ne-none (ids s) candidate (suc (length s.approvals)) 0 inj
      (omega (arith, length-ids s.approvals))
