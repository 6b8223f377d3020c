-- ===== src/Runs/Final.antt =====
-- src/leon_control_plane/store.py: the closed rows of assignments and runs.
use leon_ai_assistant.Base.{
  ℕ, ◌≡◌, refl, ◌∙◌, sym, ap, subst, inl, inr, Bool, true, false, ◌||◌, not, List, ◌∷◌, Option,
  some, arith, Bool-cases, is_some, ◌==◌,
}
use leon_ai_assistant.Base.Rows.{find, update, find-All}
use leon_ai_assistant.Base.Keys.{by_key, by_key-update_self, by_key-update_ne}
use leon_ai_assistant.Runs.{Proposal, ProposalStatus, Run, RunStatus, Desk, run_of, proposal_of}
use leon_ai_assistant.Runs.Create.{fresh_run}
use leon_ai_assistant.Runs.Complete.{completed, same_status, is_completion}
use leon_ai_assistant.Runs.Review.{reviewed}
use leon_ai_assistant.Runs.Assign.{
  is_prepared, is_applying, fresh_proposal, rejected_proposal, marked, unmarked, abandon_apply,
  linked, mark_applied,
}
use leon_ai_assistant.Runs.Invariant.{DeskIsValid, RunIsValid, is_pending}
use leon_ai_assistant.Runs.Cases.{
  proposal-Proposes, Prepared, reject-cases, begin-cases, create-Starts, complete-cases,
  review-Reviews,
}
use leon_ai_assistant.Runs.Steps.{
  Step, acts, proposes, rejects, begins, abandons, creates, links, completes, reviews, Reach, here,
  next,
}

module _ {A : Type 0} (key : A → ℕ) where
  -- An update that leaves a row as it is, where it meets it.
  untouched :
      (k id : ℕ) (f : A → A) (x : A) (rows : List A)
      → ((y : A) → key (f y) ≡ key y)
      → by_key key id rows ≡ some x
      → (k ≡ id → f x ≡ x)
      → by_key key id (update (λ y. key y == k) f rows) ≡ some x
  untouched k id f x rows keys e same = elim (Bool-cases (k == id)) [
    | inl t ↦
        let q : k ≡ id = ground (arith, t) in
        let w = by_key-update_self key id f x rows keys e in
        subst (λ i. by_key key id (update (λ y. key y == i) f rows) ≡ some x) (sym q)
          (w ∙ ap (λ z. some z) (same q))
    | inr t ↦ by_key-update_ne key k id f rows keys (ground (arith, t)) ∙ e
  ]

  added :
      (y x : A) (id : ℕ) (rows : List A)
      → is_some (by_key key (key y) rows) ≡ false
      → by_key key id rows ≡ some x
      → by_key key id (y ∷ rows) ≡ some x
  unfolding find
  added y x id rows u e = elim (Bool-cases (key y == id)) [
    | inl t ↦
        let q : key y ≡ id = ground (arith, t) in
        let w = ap (λ (o : Option A). is_some o) e in
        absurd (cc (subst (λ i. is_some (by_key key i rows) ≡ false) q u, w))
    | inr t ↦ rw t e
  ]

-- Applied or rejected.
abbrev pub is_final : ProposalStatus → Bool
is_final s = not (is_prepared s || is_applying s)

final-unmarked : (now : ℕ) (p : Proposal) → is_final p.status ≡ true → unmarked now p ≡ p
unfolding unmarked
final-unmarked now p h = let k : is_applying p.status ≡ false = ground arith in rw k refl

final-linked :
    (now run : ℕ) (note : _) (p : Proposal) → is_final p.status ≡ true → linked now run note p ≡ p
unfolding linked
final-linked now run note p h = let k : is_applying p.status ≡ false = ground arith in rw k refl

id-unmarked : (now : ℕ) (p : Proposal) → (unmarked now p).id ≡ p.id
unfolding unmarked
id-unmarked now p = ground arith

id-linked : (now run : ℕ) (note : _) (p : Proposal) → (linked now run note p).id ≡ p.id
unfolding linked
id-linked now run note p = ground arith

-- A prepared proposal is not the final one.
other :
    (k id : ℕ) (p q : Proposal) (d : Desk)
    → proposal_of id d ≡ some p
    → is_final p.status ≡ true
    → Prepared k d q
    → k ≡ id
    → ⊥
other k id p q d e h w m =
    let g = subst (λ i. proposal_of i d ≡ some q) m w.found in
    let same : q ≡ p = cc (e, g) in
    let r = ap (λ (y : Proposal). is_prepared y.status) (sym same) ∙ w.prepared in
    ground (arith, h, r)

proposal_key : Proposal → ℕ
proposal_key p = p.id

Step-final :
    {d u : Desk} (id : ℕ) (p : Proposal)
    → Step d u
    → proposal_of id d ≡ some p
    → is_final p.status ≡ true
    → proposal_of id u ≡ some p
unfolding fresh_proposal rejected_proposal marked abandon_apply mark_applied
Step-final {d} id p (acts s u a q) e h = rw q e
Step-final {d} id p (proposes t now k a u q) e h =
    let (task, w) = proposal-Proposes t now k a d u q in
    rw w.result
      (added (λ (y : Proposal). y.id) (fresh_proposal now k task _) p id d.proposals w.unused e)
Step-final {d} id p (rejects t now k note u q) e h =
    let (x, w, m) = reject-cases t now k note d u q in
    rw m (
      untouched (λ (y : Proposal). y.id) k id (rejected_proposal now note) p d.proposals (λ y. refl)
        e (λ s. absurd (other k id p x d e h w s)))
Step-final {d} id p (begins now k note u q) e h =
    let (x, w, m) = begin-cases now k note d u q in
    rw m (
      untouched (λ (y : Proposal). y.id) k id (marked now note) p d.proposals (λ y. refl) e
        (λ s. absurd (other k id p x d e h w s)))
Step-final {d} id p (abandons now k u q) e h = rw q (
    untouched (λ (y : Proposal). y.id) k id (unmarked now) p d.proposals (id-unmarked now) e
      (λ s. final-unmarked now p h))
Step-final {d} id p (creates t now run rollback a u q) e h =
    let (gate, rows, w) = create-Starts t now run rollback a d u q in rw w.result e
Step-final {d} id p (links now run k note x r u f g m q) e h = rw q (
    untouched (λ (y : Proposal). y.id) k id (linked now run note) p d.proposals
      (id-linked now run note) e (λ s. final-linked now run note p h))
Step-final {d} id p (completes t now run summary evidence status recovery u q) e h =
    elim (complete-cases t now run summary evidence status recovery d u q) [
      | inl m ↦ rw m e
      | inr (r, w) ↦ rw w.result e
    ]
Step-final {d} id p (reviews t now run status note u q) e h =
    let (r, s, w) = review-Reviews t now run status note d u q in rw w.result e

-- Once a proposal is applied or rejected its row never changes again: it is applied at most once, and to
-- one run.
pub Reach-final :
    (id : ℕ) (p : Proposal) (d u : Desk)
    → proposal_of id d ≡ some p
    → is_final p.status ≡ true
    → Reach d u
    → proposal_of id u ≡ some p
Reach-final id p d u e h here = e
Reach-final id p d u e h (next {e = m} r s) = Step-final id p s (Reach-final id p d m e h r) h

-- A reviewed run neither runs nor waits for a review.
reviewed-closed :
    (r : Run)
    → RunIsValid r
    → is_pending r.review_status ≡ false
    → (same_status r.status RunStatus.running || is_completion r.status) ≡ false
reviewed-closed r v h = ground (arith, v.reviewed h)

other_run :
    (k id : ℕ) (r x : Run) (d : Desk)
    → run_of id d ≡ some r
    → (same_status r.status RunStatus.running || is_completion r.status) ≡ false
    → run_of k d ≡ some x
    → (same_status x.status RunStatus.running || is_completion x.status) ≡ true
    → k ≡ id
    → ⊥
other_run k id r x d e h f g m =
    let f' = subst (λ i. run_of i d ≡ some x) m f in
    let same : x ≡ r = cc (e, f') in
    cc (
      ap (λ (y : Run). same_status y.status RunStatus.running || is_completion y.status) (sym same)
          ∙ g,
      h,
    )

Step-reviewed :
    {d u : Desk} (id : ℕ) (r : Run)
    → Step d u
    → run_of id d ≡ some r
    → (same_status r.status RunStatus.running || is_completion r.status) ≡ false
    → run_of id u ≡ some r
unfolding fresh_run completed reviewed abandon_apply mark_applied
Step-reviewed {d} id r (acts s u a q) e h = rw q e
Step-reviewed {d} id r (proposes t now k a u q) e h =
    let (task, w) = proposal-Proposes t now k a d u q in rw w.result e
Step-reviewed {d} id r (rejects t now k note u q) e h =
    let (x, w, m) = reject-cases t now k note d u q in rw m e
Step-reviewed {d} id r (begins now k note u q) e h =
    let (x, w, m) = begin-cases now k note d u q in rw m e
Step-reviewed {d} id r (abandons now k u q) e h = rw q e
Step-reviewed {d} id r (creates t now run rollback a u q) e h =
    let (gate, rows, w) = create-Starts t now run rollback a d u q in
    rw w.result
      (added (λ (y : Run). y.id) (fresh_run t now run rollback a gate) r id d.runs w.unused e)
Step-reviewed {d} id r (links now run k note x y u f g m q) e h = rw q e
Step-reviewed {d} id r (completes t now run summary evidence status recovery u q) e h =
    elim (complete-cases t now run summary evidence status recovery d u q) [
      | inl m ↦ rw m e
      | inr (x, w) ↦ rw w.result (
          untouched (λ (y : Run). y.id) run id (completed t now status summary evidence recovery) r
            d.runs (λ y. refl) e
            (λ s. absurd (other_run run id r x d e h w.found (ground (arith, w.running)) s)))
    ]
Step-reviewed {d} id r (reviews t now run status note u q) e h =
    let (x, s, w) = review-Reviews t now run status note d u q in
    rw w.result (
      untouched (λ (y : Run). y.id) run id (reviewed now status note) r d.runs (λ y. refl) e
        (λ m. absurd (other_run run id r x d e h w.found (ground (arith, w.ready)) m)))

-- From a valid state, a reviewed run never changes again: it is not reviewed twice, and no late completion
-- overwrites its result.
pub Reach-reviewed :
    (id : ℕ) (r : Run) (d u : Desk)
    → DeskIsValid d
    → run_of id d ≡ some r
    → is_pending r.review_status ≡ false
    → Reach d u
    → run_of id u ≡ some r
Reach-reviewed id r d u v e h w = go u w
  where
    closed : (same_status r.status RunStatus.running || is_completion r.status) ≡ false
    closed = reviewed-closed r (find-All (λ (y : Run). y.id == id) RunIsValid d.runs r v.runs e) h

    go : (z : Desk) → Reach d z → run_of id z ≡ some r
    go z here = e
    go z (next {e = m} q s) = Step-reviewed id r s (go m q) closed
