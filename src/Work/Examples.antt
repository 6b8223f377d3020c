-- ===== src/Work/Examples.antt =====
-- The theorems on the work queue at a small queue, and tests of its operations.
use leon_ai_assistant.Base.{◌≡◌, ◌≤◌, refl, Bool, true, false, none, some, arith}
use leon_ai_assistant.Base.Text.{one_of, strip}
use leon_ai_assistant.Base.Rows.{find, update, count, first_by, where_rows}
use leon_ai_assistant.Db.{Db, Job, ok, job_of, task_eligible, python_syntax_check, openai_text}
use leon_ai_assistant.Model.{prepare, route, local_request_payload, validate_local, check_text}
use leon_ai_assistant.Work.{
  open_jobs, results_of, is_local_job, insert_checkpoint, total_steps, view, insert_job,
  insert_model, insert_binding, is_high_risk,
}
use leon_ai_assistant.Work.Claim.{claim, next_job, claimable, before, leased}
use leon_ai_assistant.Work.Checkpoints.{
  checkpoint, settle, commit, owns, may_retry, advanced, is_true,
}
use leon_ai_assistant.Work.Enqueue.{
  enqueue, fresh_job, admit, enqueue_agent_run, bind_run, fresh_model,
}
use leon_ai_assistant.Work.Invariant.{DbIsValid}
use leon_ai_assistant.Work.Samples.{
  env, local, queue, claim_one, claimed_queue, passed_result, committed_queue, job_one, chat_queue,
  chat_claim, longer_queue, agent_queue, bound_queue,
}
use leon_ai_assistant.Work.Preserve.{claim-DbIsValid}
use leon_ai_assistant.Work.Commit.{checkpoint_total}
use leon_ai_assistant.Work.Fence.{stale_token}
use leon_ai_assistant.Work.Order.{no_overtaking}
use leon_ai_assistant.Work.Handover.{claim_then_checkpoint, step_after}

queue-DbIsValid : DbIsValid queue
unfolding open_jobs count find total_steps
queue-DbIsValid = ground arith

agent_queue-DbIsValid : DbIsValid agent_queue
unfolding open_jobs count find total_steps
agent_queue-DbIsValid = ground arith

claimed : claim 120 55 true queue ≡ (some claim_one, claimed_queue)
unfolding claim next_job first_by where_rows claimable is_local_job before find update task_eligible
    results_of
claimed = refl

found : job_of 7 queue ≡ some job_one
unfolding find
found = refl

still_eligible : task_eligible 1 claimed_queue ≡ true
unfolding task_eligible claim next_job first_by where_rows claimable is_local_job before find update
    results_of
still_eligible = refl

not_retried : may_retry python_syntax_check passed_result ≡ false
unfolding may_retry
not_retried = refl

committed : checkpoint env 130 claim_one passed_result claimed_queue ≡ ok (true, committed_queue)
unfolding checkpoint settle commit owns may_retry advanced insert_checkpoint claim next_job first_by
    where_rows claimable is_local_job before find update task_eligible results_of
committed = refl

refused_token :
    checkpoint env 131 (record claim_one { token = 54 }) passed_result claimed_queue
    ≡ ok (false, claimed_queue)
unfolding checkpoint settle commit owns may_retry advanced insert_checkpoint claim next_job first_by
    where_rows claimable is_local_job before find update task_eligible results_of
refused_token = refl

enqueued :
    enqueue env local 150 9 1 (some 90) (some python_syntax_check) none queue
    ≡ ok (view longer_queue (fresh_job 150 9 90 1 python_syntax_check), longer_queue)
unfolding enqueue admit task_eligible find open_jobs count insert_job
enqueued = refl

bound_run :
    enqueue_agent_run env local 150 9 90 1 3 4 "summarize" 64 agent_queue
    ≡ ok (view bound_queue (fresh_job 150 9 90 1 openai_text), bound_queue)
unfolding enqueue_agent_run bind_run prepare route local_request_payload validate_local check_text
    strip one_of is_high_risk task_eligible find open_jobs count insert_job insert_model
    insert_binding fresh_model
bound_run = refl

checkpoint_total_example :
    (b : Bool) × (db' : Db) × (checkpoint env 130 claim_one passed_result claimed_queue
      ≡ ok (b, db'))
    × DbIsValid db'
unfolding claim next_job first_by where_rows claimable is_local_job before find update task_eligible
    results_of
checkpoint_total_example =
    checkpoint_total env 130 claim_one passed_result claimed_queue (leased 120 55 job_one)
      (claim-DbIsValid 120 55 true queue queue-DbIsValid) refl (omega arith) refl refl

claimed_queue-DbIsValid : DbIsValid claimed_queue
claimed_queue-DbIsValid = claim-DbIsValid 120 55 true queue queue-DbIsValid

claim_then_checkpoint_example :
    (db'' : Db) × (row : Job) × (checkpoint env 130 claim_one passed_result claimed_queue
      ≡ ok (true, db''))
    × (job_of 7 db'' ≡ some row)
    × (row.next_step ≡ step_after (is_true passed_result.ok) 0)
    × (row.lease_token ≡ none)
    × (row.attempts ≡ 0)
claim_then_checkpoint_example =
    claim_then_checkpoint 120 55 130 true queue claimed_queue claim_one env passed_result
      queue-DbIsValid claimed (omega arith) still_eligible not_retried refl (omega arith) refl

stale_token_example : (◌≡◌ {A = Bool} false false) × (claimed_queue ≡ claimed_queue)
stale_token_example =
    stale_token 120 55 131 true queue claimed_queue claimed_queue claim_one
      (record claim_one { token = 54 }) env passed_result false queue-DbIsValid claimed refl
      (omega arith) refused_token

chat_queue-DbIsValid : DbIsValid chat_queue
unfolding open_jobs count find total_steps
chat_queue-DbIsValid = ground arith

-- At 180 the older job has aged past the chat message; at 150 the chat message goes first.
aged_first : claim 180 55 true chat_queue ≡ (some claim_one, (claim 180 55 true chat_queue).1)
unfolding claim next_job first_by where_rows claimable is_local_job before find update task_eligible
    results_of
aged_first = refl

chat_leased : claim 150 55 true chat_queue ≡ (some chat_claim, (claim 150 55 true chat_queue).1)
unfolding claim next_job first_by where_rows claimable is_local_job before find update task_eligible
    results_of
chat_leased = refl

no_overtaking_example : (row : Job) × (job_of 7 chat_queue ≡ some row) × (row.created_at ≤ 100)
unfolding find claimable is_local_job
no_overtaking_example =
    no_overtaking 180 55 true chat_queue (claim 180 55 true chat_queue).1 claim_one job_one
      chat_queue-DbIsValid aged_first refl refl (omega arith)
