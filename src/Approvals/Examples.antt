-- ===== src/Approvals/Examples.antt =====
-- The theorems on tasks and approvals at a small store, and tests of the operations.
use leon_ai_assistant.Base.{
  ℕ, ◌+◌, ◌≡◌, ◌≢◌, refl, false, [], ◌∷◌, none, some, arith, any, ◌==◌, suc, length,
}
use leon_ai_assistant.Base.Text.{strip, one_of}
use leon_ai_assistant.Base.Rows.{find, update}
use leon_ai_assistant.Db.{active, planned}
use leon_ai_assistant.Approvals.{TaskRow, Approval, Store, approval_of, task_of, blank}
use leon_ai_assistant.Approvals.Outcome.{did}
use leon_ai_assistant.Approvals.Tasks.{
  update_task_status, validate_task_transition, checked, check_approval, baseline,
}
use leon_ai_assistant.Approvals.Decide.{
  consume_approval, continue_task_after_approval, with_approval, spent,
}
use leon_ai_assistant.Approvals.Create.{create_approval, never, ids, fingerprint}
use leon_ai_assistant.Approvals.NewTask.{
  TaskArgs, unparsable, added, create_task, normalize_value_score, check_source_refs, fresh_task,
}
use leon_ai_assistant.Approvals.Names.{free_name}
use leon_ai_assistant.Approvals.Invariant.{StoreIsValid}
use leon_ai_assistant.Approvals.Acts.{
  Reach, here, next, adds, moves, consumes, Reach-StoreIsValid, Reach-closed_approval,
}
use leon_ai_assistant.Approvals.Gate.{
  Opens, activation_needs_approval, rejected_plan_refused, search_total,
}
use leon_ai_assistant.Approvals.Continue.{continue_total}
use leon_ai_assistant.Approvals.Samples.{
  env, plan, waiting, granted, refused_one, used_one, store, used_store, active_store,
}

store-StoreIsValid : StoreIsValid store
store-StoreIsValid = record {
  task_ids = (tt, tt);
  approval_ids = ground arith;
  tasks = (
    record {
      result = λ e. cc;
      verified = λ e. cc;
      dated = λ e. cc;
      reason = λ e. cc;
      reviewed = λ e. cc;
    },
    tt,
  );
  approvals = (
    record { counted = refl; summary = λ e. cc e; reason = λ e. cc e; rollback = λ r e. cc e },
    (
      record { counted = refl; summary = λ e. cc e; reason = λ e. cc e; rollback = λ r e. cc e },
      (
        record { counted = refl; summary = λ e. cc e; reason = λ e. cc e; rollback = λ r e. cc e },
        tt,
      ),
    ),
  );
}

used : consume_approval 20 1 "run log" store ≡ did used_store
unfolding consume_approval blank strip find
used = refl

activated :
    update_task_status env 21 1 (some active) (with_approval 1) used_store ≡ did active_store
unfolding update_task_status validate_task_transition checked check_approval baseline
    consume_approval blank strip find update
activated = refl

run : Reach store active_store
run =
    next (next here (consumes 20 1 "run log" used_store used))
      (moves env 21 1 (some active) (with_approval 1) active_store activated)

granted_found : approval_of 1 store ≡ some granted
unfolding find
granted_found = refl

used_found : approval_of 3 store ≡ some used_one
unfolding find
used_found = refl

waiting_found : task_of 1 store ≡ some waiting
unfolding find
waiting_found = refl

still_waiting : task_of 1 used_store ≡ some waiting
unfolding consume_approval blank strip find update
still_waiting = refl

evidence_given : blank "run log" ≡ false
unfolding blank strip
evidence_given = refl

abbrev task_args : TaskArgs
task_args = record {
  title = "Buy milk";
  goal = "Milk";
  status = some planned;
  priority = "P1";
  acceptance_criteria = "";
  value_score = unparsable;
  source_refs = some ("note" ∷ []);
  parent_task_id = some 1;
}

-- The first id that is tried, 1, is taken.
abbrev grown_store : Store
grown_store = added 22 2 planned active_store

created_task : create_task env (λ i. i + 1) 22 task_args active_store ≡ did (2, grown_store)
unfolding create_task normalize_value_score check_source_refs fresh_task free_name blank strip
    one_of find update consume_approval update_task_status validate_task_transition checked baseline
    check_approval
created_task = refl

Reach-StoreIsValid_example : StoreIsValid grown_store
Reach-StoreIsValid_example =
    Reach-StoreIsValid store grown_store store-StoreIsValid
      (next run (adds env (λ i. i + 1) 22 task_args 2 grown_store created_task))

Reach-closed_approval_example : approval_of 3 active_store ≡ some used_one
Reach-closed_approval_example =
    Reach-closed_approval 3 used_one store active_store used_found refl run

activation_needs_approval_example : (k : ℕ) × (a : Approval) × Opens 1 (some 1) used_store k a
activation_needs_approval_example =
    activation_needs_approval env 21 1 (with_approval 1) used_store active_store waiting
      still_waiting refl activated

refused_found : approval_of 2 store ≡ some refused_one
unfolding find
refused_found = refl

rejected_plan_refused_example :
    create_approval env (λ i. i + 10) 30 none plan never "orchestrator" store ≢ did (10, store)
unfolding fingerprint
rejected_plan_refused_example =
    rejected_plan_refused env (λ i. i + 10) 30 none plan never "orchestrator" store store 2 10
      refused_one refused_found refl refl

shift_injective : (i j : ℕ) → i + 1 ≡ j + 1 → i ≡ j
shift_injective i j e = omega arith

search_total_example :
    free_name (λ x. any (λ y. y == x) (ids store)) (λ i. i + 1) (suc (length store.approvals)) 0
    ≢ none
search_total_example = search_total (λ i. i + 1) store shift_injective

continue_total_example :
    (s' : Store) × (t' : TaskRow) × (continue_task_after_approval env 20 21 1 "run log" store
      ≡ (did 1, s'))
    × (approval_of 1 s' ≡ some (spent 20 granted))
    × (task_of 1 s' ≡ some t')
    × (t'.status ≡ active)
continue_total_example =
    continue_total env 20 21 1 1 "run log" granted waiting store granted_found refl refl
      waiting_found refl evidence_given refl
