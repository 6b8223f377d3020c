-- ===== src/Work/Order.antt =====
-- src/leon_control_plane/work_queue.py: the ORDER BY of `claim`: who goes first.
use leon_ai_assistant.Base.{
  ℕ, ◌+◌, ◌≤◌, ◌≡◌, refl, ◌⊎◌, inl, inr, Bool, true, false, some, arith, Bool-cases, All, any, ◌==◌,
  ltb, ◌&&◌, ◌||◌,
}
use leon_ai_assistant.Base.Rows.{first_by-least, where_rows, find-All, where_rows-of}
use leon_ai_assistant.Db.{Db, Job, job_of}
use leon_ai_assistant.Work.Claim.{Claim, claim, claimable, rank, effective, before, next_job}
use leon_ai_assistant.Work.Invariant.{DbIsValid}
use leon_ai_assistant.Work.Preserve.{next_job-found}
use leon_ai_assistant.Work.Fence.{claim-Leases}

-- The three keys of ORDER BY, compared in turn.
abbrev lex : (a b c a' b' c' : ℕ) → Bool
lex a b c a' b' c' = ltb a a' || a == a' && (ltb b b' || b == b' && ltb c c')

lex-asym : (a b c a' b' c' : ℕ) → lex a b c a' b' c' ≡ true → lex a' b' c' a b c ≡ false
lex-asym a b c a' b' c' h = ground arith

lex_trans :
    (a b c a' b' c' a'' b'' c'' : ℕ)
    → lex a b c a' b' c' ≡ false
    → lex a' b' c' a'' b'' c'' ≡ false
    → lex a b c a'' b'' c'' ≡ false
lex_trans a b c a' b' c' a'' b'' c'' h k = ground arith

-- No claimable job comes before the one that the query returns.
next_job-least :
    (now : ℕ) (ready : Bool) (db : Db) (row : Job)
    → next_job now ready db ≡ some row
    → All (λ (j : Job). claimable now ready db j ≡ true → before now db j row ≡ false) db.jobs
unfolding next_job before
next_job-least now ready db row h =
    where_rows-of (claimable now ready db) (λ (j : Job). before now db j row ≡ false) db.jobs
      (first_by-least (before now db)
        (λ (a : Job) (b : Job).
          lex-asym (effective now db a) a.created_at a.id (effective now db b) b.created_at b.id)
        (λ (a : Job) (b : Job) (c : Job).
          lex_trans (effective now db a) a.created_at a.id (effective now db b) b.created_at b.id
            (effective now db c) c.created_at c.id)
        (where_rows (claimable now ready db) db.jobs) row h)

waited-effective : (now : ℕ) (db : Db) (j : Job) → j.created_at + 60 ≤ now → effective now db j ≡ 0
waited-effective now db j h = elim (Bool-cases (any (λ c. c == j.id) db.chat_jobs)) [
  | inl e ↦ rw e (omega arith)
  | inr e ↦ rw e (omega arith)
]

-- Of two jobs, the one that has waited a minute comes first unless the other is as old.
before-waited :
    (now : ℕ) (db : Db) (j row : Job)
    → before now db j row ≡ false
    → j.created_at + 60 ≤ now
    → row.created_at ≤ j.created_at
unfolding before
before-waited now db j row b h =
    lex-waited (effective now db j) j.created_at j.id (effective now db row) row.created_at row.id
      (waited-effective now db j h) b
  where
    lex-waited : (a c i a' c' i' : ℕ) → a ≡ 0 → lex a c i a' c' i' ≡ false → c' ≤ c
    lex-waited a c i a' c' i' z k = ground arith

chat-effective :
    (now : ℕ) (db : Db) (j : Job) → rank db j ≡ 0 → j.created_at ≤ now → effective now db j ≡ 0
chat-effective now db j z h = rw z (omega arith)

other-waited :
    (now : ℕ) (db : Db) (j : Job)
    → any (λ c. c == j.id) db.chat_jobs ≡ false
    → effective now db j ≡ 0
    → j.created_at + 60 ≤ now
other-waited now db j e k = let k' = rw e at k in omega (arith, k')

before-chat :
    (now : ℕ) (db : Db) (j row : Job)
    → before now db j row ≡ false
    → rank db j ≡ 0
    → j.created_at ≤ now
    → (rank db row ≡ 0) ⊎ (row.created_at + 60 ≤ now)
unfolding before
before-chat now db j row b z h = elim (Bool-cases (any (λ c. c == row.id) db.chat_jobs)) [
  | inl e ↦ inl (rw e refl)
  | inr e ↦ inr (
      other-waited now db row e (
        front (effective now db j) j.created_at j.id (effective now db row) row.created_at row.id
          (chat-effective now db j z h) b))
]
  where
    front : (a c i a' c' i' : ℕ) → a ≡ 0 → lex a c i a' c' i' ≡ false → a' ≡ 0
    front a c i a' c' i' z k = ground arith

-- From a valid database, a job that could be leased and has waited a minute is never overtaken by a
-- job that was created after it, chat message or not: what `claim` leases is at least as old.
pub no_overtaking :
    (now token : ℕ) (ready : Bool) (db db' : Db) (c : Claim) (j : Job)
    → DbIsValid db
    → claim now token ready db ≡ (some c, db')
    → job_of j.id db ≡ some j
    → claimable now ready db j ≡ true
    → j.created_at + 60 ≤ now
    → (row : Job) × (job_of c.id db ≡ some row) × (row.created_at ≤ j.created_at)
no_overtaking now token ready db db' c j v h found w old =
    let (row, l) = claim-Leases now token ready db c db' h in
    let (_, there) = next_job-found now ready db row v l.first in
    let least =
      find-All (λ (x : Job). x.id == j.id)
        (λ (x : Job). claimable now ready db x ≡ true → before now db x row ≡ false) db.jobs j
        (next_job-least now ready db row l.first) found in
    (row, rw l.claim there, before-waited now db j row (least w) old)

-- From a valid database, while the job of a chat message could be leased, `claim` leases the job of a
-- chat message or one that has waited a minute.
chat_first :
    (now token : ℕ) (ready : Bool) (db db' : Db) (c : Claim) (j : Job)
    → DbIsValid db
    → claim now token ready db ≡ (some c, db')
    → job_of j.id db ≡ some j
    → claimable now ready db j ≡ true
    → rank db j ≡ 0
    → j.created_at ≤ now
    → (row : Job) × (job_of c.id db ≡ some row) × ((rank db row ≡ 0) ⊎ (row.created_at + 60 ≤ now))
chat_first now token ready db db' c j v h found w chat past =
    let (row, l) = claim-Leases now token ready db c db' h in
    let (_, there) = next_job-found now ready db row v l.first in
    let least =
      find-All (λ (x : Job). x.id == j.id)
        (λ (x : Job). claimable now ready db x ≡ true → before now db x row ≡ false) db.jobs j
        (next_job-least now ready db row l.first) found in
    (row, rw l.claim there, before-chat now db j row (least w) chat past)
