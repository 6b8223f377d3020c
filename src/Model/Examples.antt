-- ===== src/Model/Examples.antt =====
-- The theorems on approved requests and their ledger at one paid request, and tests.
use leon_ai_assistant.Base.{◌≡◌, ◌≤◌, refl, true, false, some, arith}
use leon_ai_assistant.Base.Text.{strip, one_of}
use leon_ai_assistant.Base.Rows.{find, update, count, total}
use leon_ai_assistant.Db.{ok, task_eligible}
use leon_ai_assistant.Model.{
  prepare, route, request_payload, check_text, reservation, same_payload, validate, cost_microusd,
}
use leon_ai_assistant.Work.{model_eligible, bound_run}
use leon_ai_assistant.Work.Checkpoints.{owns}
use leon_ai_assistant.Model.Price.{prepare_bounds, InLimits, hold_of}
use leon_ai_assistant.Model.Ledger.{
  begin, unanswered, authorize, validated, expected, affordable, send, spent, spent_since,
  day_start, parse_usage,
}
use leon_ai_assistant.Model.Rows.{LedgerIsValid, sent_count}
use leon_ai_assistant.Model.Budget.{begin-in_budget}
use leon_ai_assistant.Model.Samples.{
  cheap_ok, env, config, no_local, details, payload, request, ledger, claim_one, sent_ledger,
  lost_books, receipt_digest, recorded_books, done_books, done_view,
}
use leon_ai_assistant.Model.Receipts.{
  to_reply, replayed, fresh_receipt, ReceiptRow, receipt_of, proposal, reconcile, reconciled_books,
}
use leon_ai_assistant.Model.Reconcile.{reconcile-LedgerIsValid}
use leon_ai_assistant.Model.Again.{reconcile_twice}
use leon_ai_assistant.Work.{View}

ledger-LedgerIsValid : LedgerIsValid ledger
unfolding sent_count count find
ledger-LedgerIsValid = record {
  unique = (tt, tt);
  rows = (ground arith, tt);
  unborn = λ id h. refl;
}

sent : begin env config no_local 125 claim_one ledger ≡ ok (send payload, sent_ledger)
unfolding begin unanswered authorize validated expected affordable validate request_payload
    check_text reservation cost_microusd same_payload strip one_of model_eligible bound_run
    task_eligible owns find total update
sent = ground (arith, cheap_ok)

approved_request : prepare env no_local false details ≡ ok request
unfolding prepare route request_payload check_text strip reservation
approved_request = ground (arith, cheap_ok)

within_budget : total spent ledger.models ≤ config.total_microusd
unfolding total
within_budget = omega arith

begin-in_budget_example :
    (total spent sent_ledger.models ≤ 20000)
    × (total (spent_since (day_start 125)) sent_ledger.models ≤ 5000)
begin-in_budget_example =
    begin-in_budget env config no_local 125 claim_one ledger payload sent_ledger
      ledger-LedgerIsValid sent refl

prepare_bounds_example :
    InLimits payload
    × (1000 ≤ 1000000)
    × (hold_of payload ≤ 1000)
    × (details.approve_external_text ≡ true)
prepare_bounds_example = prepare_bounds env no_local false details request approved_request

lost_books-LedgerIsValid : LedgerIsValid lost_books.db
unfolding sent_count count find reservation cost_microusd
lost_books-LedgerIsValid = record {
  unique = (tt, tt);
  rows = (ground arith, tt);
  unborn = λ id h. ground (arith, h);
}

reconciled_ok : reconcile env receipt_digest 7 51 true recorded_books ≡ ok (done_view, done_books)
unfolding reconcile proposal reconciled_books parse_usage to_reply replayed fresh_receipt find
    one_of cost_microusd
reconciled_ok = refl

recorded_books-LedgerIsValid : LedgerIsValid recorded_books.db
unfolding sent_count count find reservation cost_microusd
recorded_books-LedgerIsValid = record {
  unique = (tt, tt);
  rows = (ground arith, tt);
  unborn = λ id h. ground (arith, h);
}

reconcile-LedgerIsValid_example :
    (true ≡ true)
    × ((r : ReceiptRow) × (receipt_of 7 recorded_books ≡ some r) × (r.digest ≡ 51))
    × LedgerIsValid done_books.db
    × (total spent done_books.db.models ≤ total spent recorded_books.db.models)
reconcile-LedgerIsValid_example =
    reconcile-LedgerIsValid env receipt_digest 7 51 true recorded_books done_books done_view
      recorded_books-LedgerIsValid reconciled_ok

reconcile_twice_example :
    (w : View) × (reconcile env receipt_digest 7 51 true done_books ≡ ok (w, done_books))
reconcile_twice_example =
    reconcile_twice env receipt_digest 7 51 true recorded_books done_books done_view reconciled_ok
