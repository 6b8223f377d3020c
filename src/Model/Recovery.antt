-- ===== src/Model/Recovery.antt =====
-- src/leon_control_plane/model_receipts.py: from a recorded receipt to the cost that is settled.
use leon_ai_assistant.Base.{ℕ, ◌≡◌, true, some}
use leon_ai_assistant.Db.{Db, ModelRow, reconciled, Payload, ok, model_of}
use leon_ai_assistant.Model.Lost.{Lost}
use leon_ai_assistant.Model.{Env}
use leon_ai_assistant.Model.Ledger.{parse_usage}
use leon_ai_assistant.Model.Receipts.{
  Observed, to_reply, Receipt, ReceiptRow, Books, receipt_of, reconcile,
}
use leon_ai_assistant.Work.{View}

module _ (env : Env) (digest_of : Receipt → ℕ) where
  -- Books in which the receipt of a usage settles the request of a job at the cost of that usage.
  pub record Recovered (id : ℕ) (p : Payload) (o : Observed) (b' : Books) : Type 0 where
    pub cost : ℕ
    pub receipt : ReceiptRow
    pub answer : View
    pub after : Books
    pub row : ModelRow
    pub observed : parse_usage p (to_reply o) ≡ some cost
    pub stored : receipt_of id b' ≡ some receipt
    pub reconciles : reconcile env digest_of id receipt.digest true b' ≡ ok (answer, after)
    pub found : model_of id after.db ≡ some row
    pub state : row.state ≡ reconciled
    pub charged : row.charged ≡ cost
    pub held : row.held ≡ 0
