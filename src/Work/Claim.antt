-- ===== src/Work/Claim.antt =====
-- src/leon_control_plane/work_queue.py: `claim`, which leases the next job to a worker.
use leon_ai_assistant.Base.{
  ℕ, ◌+◌, ◌-◌, ◌/◌, Bool, false, ◌&&◌, ◌||◌, not, List, Option, none, some, ◌==◌, leb, ltb,
  if◌then◌else◌, any,
}
use leon_ai_assistant.Base.Rows.{first_by, where_rows}
use leon_ai_assistant.Db.{
  Db, Job, Kind, running, paused, failed, WorkerResult, no_error, parent_task_ineligible,
  recovery_limit, set_job, log, work, claimed, task_eligible,
}
use leon_ai_assistant.Work.{
  max_attempts, lease_seconds, is_queued, is_running, release, results_of, is_local_job,
}

pub record Claim : Type 0 where
  pub id : ℕ
  pub task_id : ℕ
  pub step : ℕ
  pub kind : Kind
  pub token : ℕ
  pub results : List WorkerResult

-- `lease_until<=?`, which is not true of NULL
abbrev pub lapsed : Option ℕ → ℕ → Bool
lapsed none now = false
lapsed (some t) now = leb t now

-- The WHERE clause.
unfoldable pub claimable : ℕ → Bool → Db → Job → Bool
claimable now local_ready db j =
    (is_queued j.status || is_running j.status && lapsed j.lease_until now)
    && (local_ready || not (is_local_job db j))

-- 0 for the job of a chat message, 2 for any other
abbrev pub rank : Db → Job → ℕ
rank db j = if any (λ c. c == j.id) db.chat_jobs then 0 else 2

-- MAX(0, rank - CAST((now - created_at) / 30 AS INTEGER)); the CAST rounds towards zero.
abbrev pub effective : ℕ → Db → Job → ℕ
effective now db j = rank db j + (j.created_at - now) / 30 - (now - j.created_at) / 30

-- ORDER BY effective rank, created_at, id
unfoldable pub before : ℕ → Db → Job → Job → Bool
before now db a b =
    ltb (effective now db a) (effective now db b)
    || effective now db a == effective now db b
      && (ltb a.created_at b.created_at || a.created_at == b.created_at && ltb a.id b.id)

unfoldable pub next_job : ℕ → Bool → Db → Option Job
next_job now local_ready db =
    first_by (before now db) (where_rows (claimable now local_ready db) db.jobs)

unfoldable pub leased : ℕ → ℕ → Job → Job
leased now token j = record j {
  status = running;
  attempts = j.attempts + 1;
  lease_token = some token;
  lease_until = some (now + lease_seconds);
  error = no_error;
  updated_at = now;
}

abbrev pub lease : ℕ → ℕ → Job → Db → Option Claim × Db
lease now token row db =
    if not (task_eligible row.task_id db)
    then (
      none,
      log (work paused row.id) (set_job row.id (release paused parent_task_ineligible now) db),
    )
    else if leb max_attempts row.attempts
    then (none, log (work failed row.id) (set_job row.id (release failed recovery_limit now) db))
    else (
      some (record {
        id = row.id;
        task_id = row.task_id;
        step = row.next_step;
        kind = row.kind;
        token = token;
        results = results_of row.id db;
      }),
      log (claimed row.id) (set_job row.id (leased now token) db),
    )

unfoldable pub claim : ℕ → ℕ → Bool → Db → Option Claim × Db
unfolding leased release
claim now token local_ready db = elim (next_job now local_ready db) [
  | none ↦ (none, db)
  | some row ↦ lease now token row db
]
