-- ===== src/System/Examples.antt =====
-- The theorems on the system for short runs: a job is claimed and committed, a request is sent and
-- its reply recorded.
use leon_ai_assistant.Base.{Bool, false, ◌≡◌, refl, true, some, arith, []}
use leon_ai_assistant.Base.Rows.{find, update, count, first_by, where_rows, total}
use leon_ai_assistant.Db.{ModelRow, paused, queued, Db, ok, job_of, model_of, task_eligible}
use leon_ai_assistant.Model.{
  request_payload, check_text, reservation, same_payload, validate, cost_microusd,
}
use leon_ai_assistant.Base.Text.{strip, one_of}
use leon_ai_assistant.Model.Ledger.{
  cached, unknown_result, begin, unanswered, authorize, validated, expected, affordable, finish,
  send, outcome, parse_usage,
}
use leon_ai_assistant.Model.Rows.{sent_count}
use leon_ai_assistant.Model.Samples as Paid
use leon_ai_assistant.Work.{
  view, open_jobs, results_of, is_local_job, total_steps, model_eligible, bound_run,
  insert_checkpoint,
}
use leon_ai_assistant.Work.Claim.{leased, claim, next_job, claimable, before}
use leon_ai_assistant.Work.Checkpoints.{checkpoint, settle, commit, owns, may_retry, advanced}
use leon_ai_assistant.Work.Control.{control, moved, pause, resume}
use leon_ai_assistant.Work.Preserve.{claim-DbIsValid}
use leon_ai_assistant.System.Fences.{no_second_commit, control_fences}
use leon_ai_assistant.Model.Receipts.{
  to_reply, replayed, fresh_receipt, record_usage, store_receipt, proposal, reconcile,
  reconciled_books, settled_cost, cost_result,
}
use leon_ai_assistant.Work.Invariant.{DbIsValid}
use leon_ai_assistant.Work.Samples as Jobs
use leon_ai_assistant.System.{
  records, reconciles, controls, granted, Avoids, World, Reach, here, next, claims, checkpoints,
  begins, finishes, remove, launched,
}
use leon_ai_assistant.System.Closed.{Reach-closed}
use leon_ai_assistant.System.Ledger.{WorldIsValid}
use leon_ai_assistant.System.Sends.{Reach-WorldIsValid}

abbrev world : Db → World
world db = record { db = db; in_flight = [] }

queue-DbIsValid : DbIsValid Jobs.queue
unfolding open_jobs count find total_steps
queue-DbIsValid = ground arith

committed :
    checkpoint Jobs.env 130 Jobs.claim_one Jobs.passed_result Jobs.claimed_queue
    ≡ ok (true, Jobs.committed_queue)
unfolding checkpoint settle commit owns may_retry advanced insert_checkpoint claim next_job first_by
    where_rows claimable is_local_job before find update task_eligible results_of
committed = refl

-- The job is leased, and its result committed.
run : Reach Paid.config (world Jobs.queue) (world Jobs.committed_queue)
run =
    next (next here (claims 120 55 true)) (
      checkpoints Jobs.env 130 Jobs.claim_one Jobs.passed_result true Jobs.committed_queue
        committed)

job_found : job_of 7 Jobs.queue ≡ some Jobs.job_one
unfolding find
job_found = refl

failed_found : job_of 8 Jobs.queue ≡ some Jobs.job_two
unfolding find
failed_found = refl

Reach-closed_example : job_of 8 Jobs.committed_queue ≡ some Jobs.job_two
Reach-closed_example =
    Reach-closed Paid.config 8 Jobs.job_two (world Jobs.queue) (world Jobs.committed_queue)
      queue-DbIsValid failed_found refl run

ledger-DbIsValid : DbIsValid Paid.ledger
unfolding open_jobs count find total_steps
ledger-DbIsValid = ground arith

ledger-WorldIsValid : WorldIsValid Paid.config (world Paid.ledger)
unfolding sent_count count find total
ledger-WorldIsValid = record {
  ledger = record { unique = (tt, tt); rows = (ground arith, tt); unborn = λ id h. refl };
  budget = omega arith;
  distinct = tt;
  flying = tt;
}

sent :
    begin Paid.env Paid.config Paid.no_local 125 Paid.claim_one Paid.ledger
    ≡ ok (send Paid.payload, Paid.sent_ledger)
unfolding begin unanswered authorize validated expected affordable validate request_payload
    check_text reservation cost_microusd same_payload strip one_of model_eligible bound_run
    task_eligible owns find total update
sent = ground (arith, Paid.cheap_ok)

observed_usage :
    record_usage Paid.env Paid.receipt_digest 7 Paid.payload Paid.observed
      (record { db = Paid.sent_ledger; receipts = [] })
    ≡ ok Paid.observed_books
unfolding record_usage store_receipt parse_usage to_reply same_payload fresh_receipt find one_of
    cost_microusd
observed_usage = refl

claimed_again :
    begin Paid.env Paid.config Paid.no_local 130 Paid.claim_one Paid.observed_books.db
    ≡ ok (cached unknown_result, Paid.lost_ledger)
unfolding begin unanswered owns find update
claimed_again = refl

reconciled_usage :
    reconcile Paid.env Paid.receipt_digest 7 51 true
      (record Paid.observed_books { db = Paid.lost_ledger })
    ≡ ok (view Paid.settled_lost_books.db Paid.leased, Paid.settled_lost_books)
unfolding reconcile proposal reconciled_books parse_usage to_reply replayed fresh_receipt find
    one_of cost_microusd
reconciled_usage = refl

abbrev settled_row : ModelRow
settled_row = settled_cost 51 Paid.sent_row

settled_row_found : model_of 7 Paid.settled_lost_books.db ≡ some settled_row
unfolding find update settled_cost
settled_row_found = refl

late :
    finish 7 Paid.payload Paid.answer Paid.settled_lost_books.db
    ≡ ok (cost_result 51, Paid.settled_lost_books.db)
unfolding finish outcome parse_usage cost_microusd one_of find total update settled_cost
late = refl

-- The request is sent and its usage recorded; the job is claimed again while the first worker waits, the
-- cost is reconciled, and then the first worker records its reply after all.
flight : Reach Paid.config (world Paid.ledger) (world Paid.settled_lost_books.db)
unfolding remove launched settled_cost
flight =
    next
      (next
        (next
          (next
            (next here (
              begins Paid.env Paid.no_local 125 Paid.claim_one (send Paid.payload) Paid.sent_ledger
                sent))
            (records Paid.env Paid.receipt_digest 7 Paid.payload Paid.observed []
              Paid.observed_books observed_usage))
          (begins Paid.env Paid.no_local 130 Paid.claim_one (cached unknown_result) Paid.lost_ledger
            claimed_again))
        (reconciles Paid.env Paid.receipt_digest 7 51 true Paid.observed_books.receipts
          (view Paid.settled_lost_books.db Paid.leased) Paid.settled_lost_books reconciled_usage))
      (finishes Paid.env 7 (some Paid.reply) settled_row (cost_result 51) Paid.settled_lost_books.db
        settled_row_found refl late)

Reach-WorldIsValid_example : WorldIsValid Paid.config (world Paid.settled_lost_books.db)
Reach-WorldIsValid_example =
    Reach-WorldIsValid Paid.config (world Paid.ledger) (world Paid.settled_lost_books.db)
      ledger-DbIsValid ledger-WorldIsValid flight

claimed_queue-DbIsValid : DbIsValid Jobs.claimed_queue
claimed_queue-DbIsValid = claim-DbIsValid 120 55 true Jobs.queue queue-DbIsValid

-- After its first step the job is leased to a second worker, and the first one comes back.
abbrev next_claimed : Db
next_claimed = (claim 140 56 true Jobs.committed_queue).1

second_lease : Reach Paid.config (world Jobs.committed_queue) (world next_claimed)
second_lease = next here (claims 140 56 true)

second_lease-Avoids : Avoids Paid.config 55 second_lease
unfolding Avoids second_lease granted
second_lease-Avoids = (tt, λ h. ground (arith, h))

refused_again :
    checkpoint Jobs.env 141 Jobs.claim_one Jobs.passed_result next_claimed
    ≡ ok (false, next_claimed)
unfolding checkpoint settle commit owns may_retry advanced insert_checkpoint claim next_job first_by
    where_rows claimable is_local_job before find update task_eligible results_of
refused_again = refl

no_second_commit_example : (◌≡◌ {A = Bool} false false) × (next_claimed ≡ next_claimed)
no_second_commit_example =
    no_second_commit Paid.config Jobs.committed_queue [] (world next_claimed) next_claimed
      Jobs.claim_one Jobs.claim_one Jobs.env 141 Jobs.passed_result false second_lease
      Jobs.claimed_queue 130 Jobs.passed_result claimed_queue-DbIsValid committed refl
      second_lease-Avoids refused_again

-- A leased job is paused, resumed and leased to a second worker.
abbrev paused_queue : Db
paused_queue = Jobs.db_after (control 122 7 (some pause) Jobs.claimed_queue)

abbrev resumed_queue : Db
resumed_queue = Jobs.db_after (control 123 7 (some resume) paused_queue)

abbrev resumed_claimed : Db
resumed_claimed = (claim 124 56 true resumed_queue).1

paused_job :
    control 122 7 (some pause) Jobs.claimed_queue
    ≡ ok (view paused_queue (moved paused 122 (leased 120 55 Jobs.job_one)), paused_queue)
unfolding control claim next_job first_by where_rows claimable is_local_job before find update
    task_eligible results_of
paused_job = refl

resumed_job :
    control 123 7 (some resume) paused_queue
    ≡ ok (
      view resumed_queue (moved queued 123 (moved paused 122 (leased 120 55 Jobs.job_one))),
      resumed_queue,
    )
unfolding control claim next_job first_by where_rows claimable is_local_job before find update
    task_eligible results_of
resumed_job = refl

after_pause : Reach Paid.config (world paused_queue) (world resumed_claimed)
after_pause =
    next (next here (controls 123 7 (some resume) _ resumed_queue resumed_job)) (claims 124 56 true)

after_pause-Avoids : Avoids Paid.config 55 after_pause
unfolding Avoids after_pause granted
after_pause-Avoids = ((tt, λ h. cc h), λ h. ground (arith, h))

refused_stale :
    checkpoint Jobs.env 125 Jobs.claim_one Jobs.passed_result resumed_claimed
    ≡ ok (false, resumed_claimed)
unfolding control checkpoint settle commit owns may_retry advanced insert_checkpoint claim next_job
    first_by where_rows claimable is_local_job before find update task_eligible results_of
refused_stale = refl

control_fences_example : (◌≡◌ {A = Bool} false false) × (resumed_claimed ≡ resumed_claimed)
control_fences_example =
    control_fences Paid.config paused_queue [] (world resumed_claimed) resumed_claimed
      Jobs.claim_one Jobs.claim_one Jobs.env 125 Jobs.passed_result false after_pause
      Jobs.claimed_queue 122 pause
      (view paused_queue (moved paused 122 (leased 120 55 Jobs.job_one))) claimed_queue-DbIsValid
      paused_job refl after_pause-Avoids refused_stale
