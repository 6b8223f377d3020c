-- ===== src/Approvals/NewTask.antt =====
-- src/leon_control_plane/store.py: `create_task`. The columns that no transition reads are left out, but
-- not their checks; the id's suffixes are `candidate`.
use leon_ai_assistant.Base.{
  ℕ, ◌≡◌, ◌≢◌, refl, subst, Bool, true, false, ◌&&◌, not, String, List, [], ◌∷◌, Option, none, some,
  ◌==◌, leb, arith, any, map, length, suc, is_some,
}
use leon_ai_assistant.Base.Text.{one_of, strip}
use leon_ai_assistant.Base.Keys.{Absent}
use leon_ai_assistant.Db.{TaskStatus, new, planned}
use leon_ai_assistant.Approvals.{TaskRow, Store, Env, task_created, task_of, record_event, blank}
use leon_ai_assistant.Approvals.Outcome.{
  Outcome, did, refused, require, or_refuse, ◌>>=◌, ◌>>◌, secret_found, invalid_status,
  title_required, must_start_new, bad_priority, bad_score, bad_refs, unknown_parent,
  names_exhausted, require-did, >>=-did, or_refuse-did, did-pair,
}
use leon_ai_assistant.Approvals.Names.{free_name, free_name-free, free_name-ne-none}
use leon_ai_assistant.Approvals.Invariant.{TaskIsValid, StoreIsValid}

-- What `int` makes of the value score.
pub data Score : Type 0 where
  number : ℕ → Score
  negative unparsable : Score

-- The keyword arguments of `create_task` that are stored or checked; `source_refs` is none for a value
-- that is no list and no text, whose lines are split before, and `status` none for no status.
pub record TaskArgs : Type 0 where
  pub title : String
  pub goal : String
  pub status : Option TaskStatus
  pub priority : String
  pub acceptance_criteria : String
  pub value_score : Score
  pub source_refs : Option (List String)
  pub parent_task_id : Option ℕ

abbrev pub starts : TaskStatus → Bool
starts new = true
starts planned = true
starts _ = false

-- `_normalize_value_score`
unfoldable pub normalize_value_score : Score → Outcome ℕ
normalize_value_score (number n) = do require (leb n 5) bad_score; did n
normalize_value_score negative = refused bad_score
normalize_value_score unparsable = did 3

-- The checks of `_normalize_source_refs`.
unfoldable pub check_source_refs : Env → Option (List String) → Outcome (Unit {0})
check_source_refs env none = refused bad_refs
check_source_refs env (some refs) =
    require (not (any (λ r. not (blank r) && env.contains_secret (strip r)) refs)) secret_found

abbrev pub known_parent : Option ℕ → Store → Bool
known_parent none s = true
known_parent (some p) s = is_some (task_of p s)

abbrev pub task_ids : Store → List ℕ
task_ids s = map (λ (t : TaskRow). t.id) s.tasks

unfoldable pub fresh_task : ℕ → ℕ → TaskStatus → TaskRow
fresh_task now id status = record {
  id = id;
  status = status;
  blocked_reason = "";
  result = "";
  verification_note = "";
  review_note = "";
  updated_at = now;
  done_at = none;
}

abbrev pub free_id : (ℕ → ℕ) → Store → Option ℕ
free_id candidate s =
    free_name (λ x. any (λ y. y == x) (task_ids s)) candidate (suc (length s.tasks)) 0

abbrev pub added : ℕ → ℕ → TaskStatus → Store → Store
added now id status s =
    record_event (task_created id) (record s { tasks = fresh_task now id status ∷ s.tasks })

unfoldable pub create_task : Env → (ℕ → ℕ) → ℕ → TaskArgs → Store → Outcome (ℕ × Store)
unfolding fresh_task
create_task env candidate now a s = do
  require (not (blank a.title) && not (blank a.goal)) title_required
  require (not (env.contains_secret (strip a.title))) secret_found
  require (not (env.contains_secret (strip a.goal))) secret_found
  require (not (env.contains_secret a.acceptance_criteria)) secret_found
  status ← or_refuse a.status invalid_status
  require (starts status) must_start_new
  require (one_of a.priority ("P0" ∷ "P1" ∷ "P2" ∷ [])) bad_priority
  score ← normalize_value_score a.value_score
  check_source_refs env a.source_refs
  require (known_parent a.parent_task_id s) unknown_parent
  id ← or_refuse (free_id candidate s) names_exhausted
  did (id, added now id status s)

pub create_task-Adds :
    (env : Env) (candidate : ℕ → ℕ) (now : ℕ) (a : TaskArgs) (s s' : Store) (id : ℕ)
    → create_task env candidate now a s ≡ did (id, s')
    → (status : TaskStatus) × (starts status ≡ true)
      × (any (λ y. y == id) (task_ids s) ≡ false)
      × (s' ≡ added now id status s)
unfolding create_task
create_task-Adds env candidate now a s s' id h =
    let (_, h₁) = require-did (not (blank a.title) && not (blank a.goal)) title_required h in
    let (_, h₂) = require-did (not (env.contains_secret (strip a.title))) secret_found h₁ in
    let (_, h₃) = require-did (not (env.contains_secret (strip a.goal))) secret_found h₂ in
    let (_, h₄) = require-did (not (env.contains_secret a.acceptance_criteria)) secret_found h₃ in
    let (status, _, h₅) = >>=-did (or_refuse a.status invalid_status) h₄ in
    let (o, h₆) = require-did (starts status) must_start_new h₅ in
    let (_, h₇) = require-did (one_of a.priority ("P0" ∷ "P1" ∷ "P2" ∷ [])) bad_priority h₆ in
    let (_, _, h₈) = >>=-did (normalize_value_score a.value_score) h₇ in
    let (_, _, h₉) = >>=-did (check_source_refs env a.source_refs) h₈ in
    let (_, h₁₀) = require-did (known_parent a.parent_task_id s) unknown_parent h₉ in
    let (i, n, h₁₁) = >>=-did (or_refuse (free_id candidate s) names_exhausted) h₁₀ in
    let (q, r) = did-pair h₁₁ in
    (
      status,
      o,
      subst (λ k. any (λ y. y == k) (task_ids s) ≡ false) q
          (free_name-free (λ x. any (λ y. y == x) (task_ids s)) candidate (suc (length s.tasks)) 0 i
            (or_refuse-did (free_id candidate s) names_exhausted n)),
      subst (λ k. s' ≡ added now k status s) q r,
    )

unused-Absent :
    (id : ℕ) (rest : List TaskRow)
    → any (λ y. y == id) (map (λ (t : TaskRow). t.id) rest) ≡ false
    → Absent (λ (t : TaskRow). t.id) id rest
unused-Absent id [] h = tt
unused-Absent id (t ∷ rest) h = (ground arith, unused-Absent id rest (ground arith))

fresh_task-TaskIsValid :
    (now id : ℕ) (status : TaskStatus)
    → starts status ≡ true
    → TaskIsValid (fresh_task now id status)
unfolding fresh_task
fresh_task-TaskIsValid now id status h = record {
  result = λ e. absurd (ground (arith, e));
  verified = λ e. absurd (ground (arith, e));
  dated = λ e. absurd (ground (arith, e));
  reason = λ e. absurd (ground (arith, e));
  reviewed = λ e. absurd (ground (arith, e));
}

pub create_task-StoreIsValid :
    (env : Env) (candidate : ℕ → ℕ) (now : ℕ) (a : TaskArgs) (s s' : Store) (id : ℕ)
    → StoreIsValid s
    → create_task env candidate now a s ≡ did (id, s')
    → StoreIsValid s'
unfolding fresh_task
create_task-StoreIsValid env candidate now a s s' id v h =
    let (status, o, u, q) = create_task-Adds env candidate now a s s' id h in
    rw q (record {
      task_ids = (unused-Absent id s.tasks u, v.task_ids);
      approval_ids = v.approval_ids;
      tasks = (fresh_task-TaskIsValid now id status o, v.tasks);
      approvals = v.approvals;
    })

length-task_ids : (rest : List TaskRow) → length (map (λ (t : TaskRow). t.id) rest) ≡ length rest
length-task_ids [] = refl
length-task_ids (t ∷ rest) = omega (arith, length-task_ids rest)

-- If the candidate ids are distinct, the search for an unused one ends within its rounds.
free_id_total :
    (candidate : ℕ → ℕ) (s : Store)
    → ((i j : ℕ) → candidate i ≡ candidate j → i ≡ j)
    → free_id candidate s ≢ none
free_id_total candidate s inj =
    free_name-ne-none (task_ids s) candidate (suc (length s.tasks)) 0 inj
      (omega (arith, length-task_ids s.tasks))
