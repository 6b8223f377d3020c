-- ===== src/Model/Rows.antt =====
-- src/leon_control_plane/model_work.py: what holds of every row of the ledger, and what a send, a lost
-- reply and a recorded outcome do to one row.
use leon_ai_assistant.Base.{
  ℕ, ◌≤◌, ◌≡◌, refl, inl, inr, Bool, true, false, List, ◌∷◌, none, arith, Bool-cases, is_some, ◌==◌,
  ==_refl, All, if◌then◌else◌,
}
use leon_ai_assistant.Base.Rows.{count}
use leon_ai_assistant.Base.Keys.{Unique}
use leon_ai_assistant.Db.{
  Db, ModelRow, ModelState, approved, unknown, settled, reconciled, Payload, Event,
  model_send_authorized, model_of, is_local, WorkerResult,
}
use leon_ai_assistant.Model.{reservation}
use leon_ai_assistant.Work.Checkpoints.{is_true}
use leon_ai_assistant.Model.Ledger.{is_pending, spent, hold_for, to_send, recorded}

abbrev pub is_send : ℕ → Event → Bool
is_send id (model_send_authorized j) = j == id
is_send id _ = false

-- How often a job's request was authorized to be sent.
unfoldable pub sent_count : ℕ → List Event → ℕ
sent_count id events = count (is_send id) events

abbrev pub is_answered : ModelState → Bool
is_answered settled = true
is_answered reconciled = true
is_answered _ = false

pub record RowIsValid (events : List Event) (m : ModelRow) : Type 0 where
  pub once : is_local m.request.payload ≡ false → sent_count m.job_id events ≤ 1
  pub unsent :
      is_local m.request.payload ≡ false → m.state ≡ approved → sent_count m.job_id events ≡ 0
  pub untouched : m.state ≡ approved → spent m ≡ 0
  pub answered : is_answered m.state ≡ true → is_some m.result ≡ true
  pub covered : is_local m.request.payload ≡ false → spent m ≤ reservation m.request.payload
  pub reserved :
      is_local m.request.payload ≡ false
      → is_pending m.state ≡ true
      → reservation m.request.payload ≤ m.held
  pub free : is_local m.request.payload ≡ true → spent m ≡ 0

pub record LedgerIsValid (db : Db) : Type 0 where
  pub unique : Unique (λ (m : ModelRow). m.job_id) db.models
  pub rows : All (RowIsValid db.audit) db.models
  pub unborn : (id : ℕ) → model_of id db ≡ none → sent_count id db.audit ≡ 0

-- An event that authorizes no send of the row's job leaves the row valid.
pub quiet-RowIsValid :
    (e : Event) (events : List Event) (m : ModelRow)
    → is_send m.job_id e ≡ false
    → RowIsValid events m
    → RowIsValid (e ∷ events) m
unfolding sent_count count
quiet-RowIsValid e events m q v = record {
  once = λ p. ground (arith, q, v.once p);
  unsent = λ p s. ground (arith, q, v.unsent p s);
  untouched = v.untouched;
  answered = v.answered;
  covered = v.covered;
  reserved = v.reserved;
  free = v.free;
}

-- Marking a request as sending: it has no answer and is not on its way.
pub to_send-RowIsValid :
    (now : ℕ) (events : List Event) (m : ModelRow)
    → m.result ≡ none
    → (is_local m.request.payload ≡ false → is_pending m.state ≡ false)
    → RowIsValid events m
    → RowIsValid
        (model_send_authorized m.job_id ∷ events)
        (to_send now (hold_for m.request.payload) m)
unfolding sent_count count to_send
to_send-RowIsValid now events m none_yet unsent v = record {
  once = λ p. ground (arith, ==_refl m.job_id, v.unsent p (fresh (unsent p)));
  unsent = λ p s. cc;
  untouched = λ s. cc;
  answered = λ s. cc;
  covered = λ p. ground (arith, p, v.untouched (fresh (unsent p)));
  reserved = λ p s. ground (arith, p);
  free = λ p. ground (arith, p, v.free p);
}
  where
    fresh : is_pending m.state ≡ false → m.state ≡ approved
    fresh q = ground (arith, v.answered)

pub unknown-RowIsValid :
    (events : List Event) (m : ModelRow)
    → is_pending m.state ≡ true
    → RowIsValid events m
    → RowIsValid events (record m { state = unknown })
unknown-RowIsValid events m p v = record {
  once = v.once;
  unsent = λ q s. cc;
  untouched = λ s. cc;
  answered = λ s. cc;
  covered = v.covered;
  reserved = λ q s. v.reserved q p;
  free = v.free;
}

-- A recorded outcome of a request that was sent.
abbrev pub Affords : Payload → WorkerResult → Type 0
Affords p r = r.accounted ≤ (if is_local p then 0 else reservation p)

pub recorded-RowIsValid :
    (events : List Event) (r : WorkerResult) (m : ModelRow)
    → Affords m.request.payload r
    → (is_local m.request.payload ≡ false → is_pending m.state ≡ true)
    → RowIsValid events m
    → RowIsValid events (recorded m.request.payload r m)
unfolding recorded
recorded-RowIsValid events r m a sent v = elim (Bool-cases (is_true r.provider_calls_made)) [
  | inl e ↦ rw e (record {
    once = v.once;
    unsent = λ p s. cc;
    untouched = λ s. cc;
    answered = λ s. refl;
    covered = λ p. ground (arith, a, p);
    reserved = λ p s. cc;
    free = λ p. ground (arith, a, p);
  })
  | inr e ↦ elim (Bool-cases (is_local m.request.payload)) [
    | inl l ↦
        rw (e, l)
          (record {
            once = λ p. v.once p;
            unsent = λ p s. cc (l, p);
            untouched = λ s. ground (arith, v.free l);
            answered = λ s. cc;
            covered = λ p. cc (l, p);
            reserved = λ p s. cc;
            free = λ p. ground (arith, v.free l);
          })
    | inr l ↦
        rw (e, l)
          (record {
            once = v.once;
            unsent = λ p s. cc;
            untouched = λ s. cc;
            answered = λ s. refl;
            covered = v.covered;
            reserved = λ p s. v.reserved p (sent p);
            free = λ p. cc (l, p);
          })
  ]
]
