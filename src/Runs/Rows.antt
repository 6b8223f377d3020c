-- ===== src/Runs/Rows.antt =====
-- src/leon_control_plane/store.py: what a change of one row, or a new row, does to a valid desk.
use leon_ai_assistant.Base.{
  ℕ, ◌≡◌, refl, ◌∙◌, sym, ap, subst, ◌⊎◌, inl, inr, false, String, List, ◌∷◌, Option, none, some,
  arith, Bool-cases, All-map_of, is_some, ◌==◌,
}
use leon_ai_assistant.Base.Rows.{find, update-All}
use leon_ai_assistant.Base.Keys.{by_key-update_self, by_key-update_ne, Unique-update, update-by_key}
use leon_ai_assistant.Approvals.{AuditEvent, Store}
use leon_ai_assistant.Approvals.Invariant.{StoreIsValid}
use leon_ai_assistant.Risk.{RiskClass, r1, r2, r3, r4, r5}
use leon_ai_assistant.Risk.Gates.{MayRun, execution_gate}
use leon_ai_assistant.Risk.Policy.{Verdict}
use leon_ai_assistant.Runs.{
  Runner, Proposal, Run, RollbackRow, Desk, Tools, run_of, proposal_of, set_run, set_proposal,
  report,
}
use leon_ai_assistant.Runs.Create.{RunArgs, gate_call, fresh_run}
use leon_ai_assistant.Runs.Invariant.{ProposalIsValid, RunIsValid, Names, DeskIsValid}
use leon_ai_assistant.Runs.Cases.{Starts}

pub unused-none : {A : Type 0} (o : Option A) → is_some o ≡ false → o ≡ none
unused-none none h = refl
unused-none (some a) h = absurd (cc h)

pub report-StoreIsValid :
    (e : AuditEvent) (d : Desk) → StoreIsValid d.store → StoreIsValid (report e d).store
report-StoreIsValid e d v = record {
  task_ids = v.task_ids;
  approval_ids = v.approval_ids;
  tasks = v.tasks;
  approvals = v.approvals;
}

-- An update of one proposal that keeps its id and its task.
pub set_proposal-DeskIsValid :
    (id : ℕ) (p : Proposal) (f : Proposal → Proposal) (d : Desk)
    → DeskIsValid d
    → proposal_of id d ≡ some p
    → ((x : Proposal) → (f x).id ≡ x.id)
    → (ProposalIsValid p → ProposalIsValid (f p))
    → (Names d p → Names d (f p))
    → DeskIsValid (set_proposal id f d)
set_proposal-DeskIsValid id p f d v e keys hit names = record {
  store = v.store;
  proposal_ids =
      Unique-update (λ (x : Proposal). x.id) (λ (x : Proposal). x.id == id) f d.proposals keys
        v.proposal_ids;
  run_ids = v.run_ids;
  proposals =
      update-by_key (λ (x : Proposal). x.id) ProposalIsValid ProposalIsValid id p f d.proposals
        v.proposal_ids e hit (λ x h n. h) v.proposals;
  names =
      update-by_key (λ (x : Proposal). x.id) (Names d) (Names (set_proposal id f d)) id p f
        d.proposals v.proposal_ids e names (λ x h n. h) v.names;
  runs = v.runs;
}

-- An update of whatever proposals have an id.
pub update_proposals-DeskIsValid :
    (id : ℕ) (f : Proposal → Proposal) (d : Desk)
    → DeskIsValid d
    → ((x : Proposal) → (f x).id ≡ x.id)
    → ((x : Proposal) → ProposalIsValid x → ProposalIsValid (f x))
    → ((x : Proposal) → Names d x → Names d (f x))
    → DeskIsValid (set_proposal id f d)
update_proposals-DeskIsValid id f d v keys hit names = record {
  store = v.store;
  proposal_ids =
      Unique-update (λ (x : Proposal). x.id) (λ (x : Proposal). x.id == id) f d.proposals keys
        v.proposal_ids;
  run_ids = v.run_ids;
  proposals =
      update-All (λ (x : Proposal). x.id == id) ProposalIsValid ProposalIsValid f d.proposals
        (λ x h e. hit x h) (λ x h e. h) v.proposals;
  names =
      update-All (λ (x : Proposal). x.id == id) (Names d) (Names (set_proposal id f d)) f
        d.proposals (λ x h e. names x h) (λ x h e. h) v.names;
  runs = v.runs;
}

-- A step that keeps all but the store and the audit log.
abbrev pub with_store : Store → Desk → Desk
with_store s d = record d { store = s }

pub with_store-DeskIsValid :
    (s : Store) (d : Desk) → StoreIsValid s → DeskIsValid d → DeskIsValid (with_store s d)
with_store-DeskIsValid s d w v = record {
  store = w;
  proposal_ids = v.proposal_ids;
  run_ids = v.run_ids;
  proposals = v.proposals;
  names = v.names;
  runs = v.runs;
}

set_run-Names :
    (id : ℕ) (r : Run) (f : Run → Run) (d : Desk) (p : Proposal)
    → run_of id d ≡ some r
    → ((x : Run) → (f x).id ≡ x.id)
    → (f r).task_id ≡ r.task_id
    → Names d p
    → Names (set_run id f d) p
set_run-Names id r f d p e keys same names run a =
    let (x, g, t) = names run a in
    elim (Bool-cases (id == run)) [
      | inl q ↦
          let k : id ≡ run = ground (arith, q) in
          let g' = subst (λ i. run_of i d ≡ some x) (sym k) g in
          let m : r ≡ x = cc (e, g') in
          (
            f r,
            subst (λ i. run_of i (set_run id f d) ≡ some (f r)) k
                (by_key-update_self (λ (y : Run). y.id) id f r d.runs keys e),
            same ∙ ap (λ (y : Run). y.task_id) m ∙ t,
          )
      | inr q ↦
          (x, by_key-update_ne (λ (y : Run). y.id) id run f d.runs keys (ground (arith, q)) ∙ g, t)
    ]

pub set_run-DeskIsValid :
    (id : ℕ) (r : Run) (f : Run → Run) (d : Desk)
    → DeskIsValid d
    → run_of id d ≡ some r
    → ((x : Run) → (f x).id ≡ x.id)
    → (f r).task_id ≡ r.task_id
    → (RunIsValid r → RunIsValid (f r))
    → DeskIsValid (set_run id f d)
set_run-DeskIsValid id r f d v e keys same hit = record {
  store = v.store;
  proposal_ids = v.proposal_ids;
  run_ids = Unique-update (λ (x : Run). x.id) (λ (x : Run). x.id == id) f d.runs keys v.run_ids;
  proposals = v.proposals;
  names =
      All-map_of (Names d) (Names (set_run id f d)) d.proposals
        (λ p h. set_run-Names id r f d p e keys same h) v.names;
  runs =
      update-by_key (λ (x : Run). x.id) RunIsValid RunIsValid id r f d.runs v.run_ids e hit
        (λ x h n. h) v.runs;
}

pub add_run-Names :
    (r : Run) (d d' : Desk) (p : Proposal)
    → run_of r.id d ≡ none
    → d'.runs ≡ r ∷ d.runs
    → Names d p
    → Names d' p
unfolding find
add_run-Names r d d' p u q names run a =
    let (x, g, t) = names run a in
    elim (Bool-cases (r.id == run)) [
      | inl k ↦
          let k' : r.id ≡ run = ground (arith, k) in
          absurd (cc (subst (λ i. run_of i d ≡ none) k' u, g))
      | inr k ↦ (x, rw (q, k) g, t)
    ]

-- A class that runs without tests and without an approval.
untested :
    (class : RiskClass) (runner : Runner) (actions : List String)
    → MayRun (gate_call runner actions) class
    → (class ≡ r1) ⊎ (class ≡ r2)
unfolding gate_call
untested r1 runner actions m = inl refl
untested r2 runner actions m = inr refl
untested r3 runner actions m = absurd (cc m.0)
untested r4 runner actions (inl m) = absurd (cc m)
untested r4 runner actions (inr (i, e, n, q)) = absurd (cc e)
untested r5 runner actions (inl m) = absurd (cc m)
untested r5 runner actions (inr (i, e, n, q)) = absurd (cc e)

pub fresh_run-RunIsValid :
    (t : Tools) (now id rollback : ℕ) (a : RunArgs) (d d' : Desk) (gate : Verdict)
    (rows : List RollbackRow)
    → Starts t now id rollback a d d' gate rows
    → RunIsValid (fresh_run t now id rollback a gate)
unfolding fresh_run
fresh_run-RunIsValid t now id rollback a d d' gate rows s = record {
  allowed = s.allowed;
  class = untested gate.risk_class a.runner _ ((execution_gate _ gate s.judged).0 s.allowed).1;
  completed = refl;
  unreviewed = λ _. refl;
  reviewed = λ e. absurd (cc e);
  noted = λ e. absurd (cc e);
}
