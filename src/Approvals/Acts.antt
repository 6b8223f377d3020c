-- ===== src/Approvals/Acts.antt =====
-- src/leon_control_plane/store.py: any sequence of the operations on tasks and approvals.
use leon_ai_assistant.Base.{
  ℕ, ◌≡◌, ◌≢◌, refl, subst, ◌∙◌, inl, inr, Bool, true, false, ◌||◌, List, [], ◌∷◌, Option, none,
  some, arith, Bool-cases, String, ◌==◌, any, map,
}
use leon_ai_assistant.Base.Rows.{find}
use leon_ai_assistant.Base.Keys.{by_key-update_ne}
use leon_ai_assistant.Db.{TaskStatus}
use leon_ai_assistant.Approvals.{
  Approval, ApprovalStatus, approved, Plan, Store, Env, approval_of, set_approval, is_consumed,
  is_expired, is_rejected, record_event, approval_decided,
}
use leon_ai_assistant.Approvals.Outcome.{did}
use leon_ai_assistant.Approvals.Tasks.{Change, update_task_status}
use leon_ai_assistant.Approvals.Create.{Expiry, create_approval, fresh}
use leon_ai_assistant.Approvals.Decide.{
  update_approval, approve_pending_approval, consume_approval, stop_task, decided, spent,
}
use leon_ai_assistant.Approvals.Invariant.{StoreIsValid}
use leon_ai_assistant.Approvals.Keep.{
  update_task_status-StoreIsValid, update_task_status-Retasks, update_approval-StoreIsValid,
  update_approval-Decides, approve_pending_approval-StoreIsValid, approve-cases,
  consume_approval-StoreIsValid, consume-cases,
}
use leon_ai_assistant.Approvals.NewTask.{
  TaskArgs, create_task, create_task-Adds, create_task-StoreIsValid,
}
use leon_ai_assistant.Approvals.Creation.{create_approval-StoreIsValid, create_approval-Creates}

pub data Acts (s : Store) : Store → Type 0 where
  adds :
      (env : Env) (candidate : ℕ → ℕ) (now : ℕ) (a : TaskArgs) (id : ℕ) (s' : Store)
      → create_task env candidate now a s ≡ did (id, s')
      → Acts s s'
  moves :
      (env : Env) (now id : ℕ) (status : Option TaskStatus) (c : Change) (s' : Store)
      → update_task_status env now id status c s ≡ did s'
      → Acts s s'
  decides :
      (env : Env) (now id : ℕ) (status note : String) (s' : Store)
      → update_approval env now id status note s ≡ did s'
      → Acts s s'
  approves :
      (env : Env) (now id : ℕ) (note action origin : String) (s' : Store)
      → approve_pending_approval env now id note action origin s ≡ did s'
      → Acts s s'
  creates :
      (env : Env) (candidate : ℕ → ℕ) (now : ℕ) (task : Option ℕ) (plan : Plan) (expiry : Expiry)
      → (by : String) (id : ℕ) (s' : Store)
      → create_approval env candidate now task plan expiry by s ≡ did (id, s')
      → Acts s s'
  consumes :
      (now id : ℕ) (evidence : String) (s' : Store)
      → consume_approval now id evidence s ≡ did s'
      → Acts s s'
  registers : (key : String) → Acts s (record s { required_env = key ∷ s.required_env })

pub data Reach (s : Store) : Store → Type 0 where
  here : Reach s s
  next : {t u : Store} → Reach s t → Acts t u → Reach s u

pub Acts-StoreIsValid : {s u : Store} → Acts s u → StoreIsValid s → StoreIsValid u
Acts-StoreIsValid {s} (adds env candidate now a id u e) v =
    create_task-StoreIsValid env candidate now a s u id v e
Acts-StoreIsValid {s} (moves env now id status c u e) v =
    update_task_status-StoreIsValid env now id status c s u v e
Acts-StoreIsValid {s} (decides env now id status note u e) v =
    update_approval-StoreIsValid env now id status note s u v e
Acts-StoreIsValid {s} (approves env now id note action origin u e) v =
    approve_pending_approval-StoreIsValid env now id note action origin s u v e
Acts-StoreIsValid {s} (creates env candidate now task plan expiry by id u e) v =
    create_approval-StoreIsValid env candidate now task plan expiry by s u id v e
Acts-StoreIsValid {s} (consumes now id evidence u e) v =
    consume_approval-StoreIsValid now id evidence s u v e
Acts-StoreIsValid (registers key) v = record {
  task_ids = v.task_ids;
  approval_ids = v.approval_ids;
  tasks = v.tasks;
  approvals = v.approvals;
}

-- In every store that creating and changing tasks and creating, deciding and consuming approvals reach
-- from a valid one, ids are unique; a done task has a result,
-- a verification note and a date, a blocked one a reason and a rejected one a review note; an approval
-- has a time of consumption exactly when it is consumed, a summary and a reason, and a rollback plan
-- if its class is R3, R4 or R5.
pub Reach-StoreIsValid : (s u : Store) → StoreIsValid s → Reach s u → StoreIsValid u
Reach-StoreIsValid s u v here = v
Reach-StoreIsValid s u v (next {t = m} r a) = Acts-StoreIsValid a (Reach-StoreIsValid s m v r)

-- Consumed or expired.
abbrev pub is_closed : ApprovalStatus → Bool
is_closed x = is_consumed x || is_expired x

-- An update of an approval that is not closed.
closed-other :
    (k id : ℕ) (a b : Approval) (f : Approval → Approval) (s : Store)
    → approval_of id s ≡ some a
    → is_closed a.status ≡ true
    → approval_of k s ≡ some b
    → is_closed b.status ≡ false
    → ((x : Approval) → (f x).id ≡ x.id)
    → approval_of id (set_approval k f s) ≡ some a
closed-other k id a b f s e c g o keys = elim (Bool-cases (k == id)) [
  | inl t ↦
      let q : k ≡ id = ground (arith, t) in
      let g' = subst (λ i. approval_of i s ≡ some b) q g in absurd (ground (arith, e, g', c, o))
  | inr t ↦
      by_key-update_ne (λ (x : Approval). x.id) k id f s.approvals keys (ground (arith, t)) ∙ e
]

stop_task-approvals :
    (env : Env) (now id : ℕ) (task : Option ℕ) (s : Store)
    → (stop_task env now id task s).approvals ≡ s.approvals
unfolding stop_task
stop_task-approvals env now id none s = refl
stop_task-approvals env now id (some t) s = refl

unused-other :
    (k id : ℕ) (a : Approval) (rest : List Approval)
    → any (λ y. y == k) (map (λ (x : Approval). x.id) rest) ≡ false
    → find (λ (x : Approval). x.id == id) rest ≡ some a
    → (k == id) ≡ false
unfolding find
unused-other k id a [] u e = absurd (ground arith)
unused-other k id a (x ∷ rest) u e = ground (arith, unused-other k id a rest)

invalid :
    (env : Env) (now id : ℕ) (c : Change) (s u : Store)
    → update_task_status env now id none c s ≢ did u
unfolding update_task_status
invalid env now id c s u h = cc h

Acts-closed :
    {s u : Store} (id : ℕ) (a : Approval)
    → Acts s u
    → approval_of id s ≡ some a
    → is_closed a.status ≡ true
    → approval_of id u ≡ some a
unfolding decided spent fresh find
Acts-closed {s} id a (adds env candidate now b k u h) e x =
    let (status, _, _, q) = create_task-Adds env candidate now b s u k h in rw q e
Acts-closed {s} id a (moves env now k none c u h) e x = absurd (invalid env now k c s u h)
Acts-closed {s} id a (moves env now k (some to) c u h) e x =
    let (t, r) = update_task_status-Retasks env now k to c s u h in rw r.result e
Acts-closed {s} id a (decides env now k status note u h) e x =
    let (b, to, d) = update_approval-Decides env now k status note s u h in
    let f = closed-other k id a b (decided now to note) s e x d.found d.open_now (λ y. refl) in
    elim (Bool-cases (is_rejected to)) [
      | inl r ↦
          rw
            (
              d.result,
              r,
              stop_task-approvals env now k b.task_id (
                  record_event (approval_decided k b.status to)
                    (set_approval k (decided now to note) s)),
            )
            f
      | inr r ↦ rw (d.result, r) f
    ]
Acts-closed {s} id a (approves env now k note action origin u h) e x =
    elim (approve-cases env now k note action origin s u h) [
      | inl q ↦ rw q e
      | inr (b, g, l, q) ↦ rw q (
          closed-other k id a b (decided now approved note) s e x g (ground (arith, l)) (λ y. refl))
    ]
Acts-closed {s} id a (creates env candidate now task plan expiry by k u h) e x =
    let (t, c) = create_approval-Creates env candidate now task plan expiry by s u k h in
    let n = unused-other k id a s.approvals c.unused e in rw (c.result, n) e
Acts-closed {s} id a (consumes now k evidence u h) e x =
    let (b, g, l, q) = consume-cases now k evidence s u h in
    rw q (closed-other k id a b (spent now) s e x g (ground (arith, l)) (λ y. refl))
Acts-closed id a (registers key) e x = e

-- Once an approval is consumed or expired, its row never changes again: it cannot be decided,
-- approved or consumed a second time.
pub Reach-closed_approval :
    (id : ℕ) (a : Approval) (s u : Store)
    → approval_of id s ≡ some a
    → is_closed a.status ≡ true
    → Reach s u
    → approval_of id u ≡ some a
Reach-closed_approval id a s u e c here = e
Reach-closed_approval id a s u e c (next {t = m} r x) =
    Acts-closed id a x (Reach-closed_approval id a s m e c r) c
