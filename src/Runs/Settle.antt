-- ===== src/Runs/Settle.antt =====
-- src/leon_control_plane/store.py: in what state an application leaves its proposal.
use leon_ai_assistant.Base.{
  ℕ, ◌≡◌, refl, ◌∙◌, sym, ap, subst, ◌⊎◌, inl, inr, true, false, String, List, Option, none, some,
  arith, ◌==◌, is_some,
}
use leon_ai_assistant.Base.Keys.{by_key-update_self}
use leon_ai_assistant.Approvals.Outcome.{Outcome, Refusal, did, refused}
use leon_ai_assistant.Runs.{
  Runner, local_mock, local_ollama, Proposal, ProposalStatus, applied, prepared, RunStatus,
  Evidence, Desk, Tools, proposal_of,
}
use leon_ai_assistant.Runs.Complete.{complete_agent_run}
use leon_ai_assistant.Runs.Assign.{
  is_prepared, check_apply, marked, begin_apply, unmarked, abandon_apply, create_run_of, linked,
  mark_applied, Applied, Texts, start_work, or_raise, raise_after, after_create, after_begin,
  after_check, apply_agent_assignment_proposal,
}
use leon_ai_assistant.Runs.Invariant.{ProposalIsValid, DeskIsValid, is_applied}
use leon_ai_assistant.Base.Rows.{find, find-All}
use leon_ai_assistant.Runs.Cases.{begin-cases, complete-cases}
use leon_ai_assistant.Runs.Apply.{check-found, create-Created}

complete-proposals :
    (t : Tools) (now id : ℕ) (summary : String) (evidence : List Evidence) (status : RunStatus)
    (recovery : List Evidence) (d d' : Desk)
    → complete_agent_run t now id summary evidence status recovery d ≡ did d'
    → d'.proposals ≡ d.proposals
complete-proposals t now id summary evidence status recovery d d' h =
    elim (complete-cases t now id summary evidence status recovery d d' h) [
      | inl e ↦ ap (λ (x : Desk). x.proposals) e
      | inr (r, c) ↦ ap (λ (x : Desk). x.proposals) c.result
    ]

-- Linked to the run.
abbrev pub Linked : ℕ → Proposal → Type 0
Linked run p = (p.status ≡ applied) × (p.applied_run ≡ some run)

-- An answer comes with the link; an error leaves the status as it was, or comes after the link.
abbrev pub Settled : ℕ → Proposal → Outcome Applied → Proposal → Type 0
Settled run p (did a) p' = Linked run p'
Settled run p (refused e) p' = (p'.status ≡ p.status) ⊎ Linked run p'

Linked-Settled :
    (run : ℕ) (p p' : Proposal) (o : Outcome Applied) → Linked run p' → Settled run p o p'
Linked-Settled run p p' (did a) l = l
Linked-Settled run p p' (refused e) l = inr l

same_proposals : (d u : Desk) → d ≡ u → u.proposals ≡ d.proposals
same_proposals d u q = ap (λ (y : Desk). y.proposals) (sym q)

or_raise-proposals :
    (answer : Applied) (c : Outcome Desk) (d u : Desk) (o : Outcome Applied)
    → ((d' : Desk) → c ≡ did d' → d'.proposals ≡ d.proposals)
    → or_raise answer c d ≡ (o, u)
    → u.proposals ≡ d.proposals
or_raise-proposals answer (refused e) d u o k h = same_proposals d u (cc h)
or_raise-proposals answer (did d') d u o k h = same_proposals d' u (cc h) ∙ k d' refl

raise_after-proposals :
    (c : Outcome Desk) (d u : Desk) (o : Outcome Applied)
    → ((d' : Desk) → c ≡ did d' → d'.proposals ≡ d.proposals)
    → raise_after c d ≡ (o, u)
    → u.proposals ≡ d.proposals
raise_after-proposals (refused e) d u o k h = same_proposals d u (cc h)
raise_after-proposals (did d') d u o k h = same_proposals d' u (cc h) ∙ k d' refl

pub start_work-proposals :
    (t : Tools) (now run : ℕ) (x : Texts) (queue : Option (Option ℕ)) (runner : Runner) (d u : Desk)
    (o : Outcome Applied)
    → start_work t now run x queue runner d ≡ (o, u)
    → u.proposals ≡ d.proposals
unfolding start_work
start_work-proposals t now run x queue local_mock d u o h =
    or_raise-proposals _ _ d u o (λ d' q. complete-proposals t now run _ _ _ _ d d' q) h
start_work-proposals t now run x (some (some job)) local_ollama d u o h = same_proposals d u (cc h)
start_work-proposals t now run x (some none) local_ollama d u o h =
    raise_after-proposals _ d u o (λ d' q. complete-proposals t now run _ _ _ _ d d' q) h
start_work-proposals t now run x none local_ollama d u o h = same_proposals d u (cc h)

is_prepared-eq : (s : ProposalStatus) → is_prepared s ≡ true → s ≡ prepared
is_prepared-eq s h = ground arith

nothing_linked : (o : Option ℕ) → is_some o ≡ false → o ≡ none
nothing_linked none h = refl
nothing_linked (some a) h = absurd (cc h)

module _ (t : Tools) (now run rollback id : ℕ) (note : String) (x : Texts)
    (queue : Option (Option ℕ)) (d u : Desk) (o : Outcome Applied) (v : DeskIsValid d)
    (p : Proposal) (f : proposal_of id d ≡ some p) where
  abbrev Ends : Type 0
  Ends = (p' : Proposal) × (proposal_of id u ≡ some p') × Settled run p o p'

  stays : {e : Refusal} → (o ≡ refused e) → d ≡ u → Ends
  stays q m = (
    p,
    subst (λ y. proposal_of id y ≡ some p) m f,
    subst (λ z. Settled run p z p) (sym q) (inl refl),
  )

  -- The mark of a prepared proposal, undone.
  unmarked-status :
      p.applied_run ≡ none
      → is_prepared p.status ≡ true
      → (unmarked now (marked now note p)).status ≡ p.status
  unfolding unmarked marked
  unmarked-status a s = ground arith

  id-unmarked : (y : Proposal) → (unmarked now y).id ≡ y.id
  unfolding unmarked
  id-unmarked y = ground arith

  linked-Linked : Linked run (linked now run note (marked now note p))
  unfolding linked marked
  linked-Linked = (refl, refl)

  id-linked : (y : Proposal) → (linked now run note y).id ≡ y.id
  unfolding linked
  id-linked y = ground arith

  begun :
      (d₁ : Desk)
      → begin_apply now note id d ≡ did d₁
      → (proposal_of id d₁ ≡ some (marked now note p)) × (is_prepared p.status ≡ true)
  unfolding marked
  begun d₁ b =
      let (q, k, m) = begin-cases now id note d d₁ b in
      let same : q ≡ p = cc (f, k.found) in
      (
        ap (λ (y : Desk). proposal_of id y) m
            ∙ by_key-update_self (λ (y : Proposal). y.id) id (marked now note) p d.proposals
                (λ y. refl) f,
        ap (λ (y : Proposal). is_prepared y.status) (sym same) ∙ k.prepared,
      )

  after_create-Ends :
      (runner : Runner) (d₁ : Desk) (c : Outcome Desk)
      → begin_apply now note id d ≡ did d₁
      → create_run_of t now run rollback runner p.assignment d₁ ≡ c
      → after_create t now run rollback id note x queue runner d₁ c ≡ (o, u)
      → Ends
  unfolding after_create abandon_apply mark_applied
  after_create-Ends runner d₁ (refused e) b q h =
      let (g, s) = begun d₁ b in
      let valid =
        find-All (λ (y : Proposal). y.id == id) ProposalIsValid d.proposals p v.proposals f in
      let a =
        nothing_linked p.applied_run (valid.linked ∙ ap is_applied (is_prepared-eq p.status s)) in
      let m : abandon_apply now id d₁ ≡ u = cc h in
      let k : o ≡ refused e = cc h in
      let w =
        by_key-update_self (λ (y : Proposal). y.id) id (unmarked now) (marked now note p)
          d₁.proposals id-unmarked g in
      (
        unmarked now (marked now note p),
        subst (λ y. proposal_of id y ≡ some (unmarked now (marked now note p))) m w,
        subst (λ z. Settled run p z (unmarked now (marked now note p))) (sym k)
            (inl (unmarked-status a s)),
      )
  after_create-Ends runner d₁ (did d₂) b q h =
      let (_, r, _, k) = create-Created t now run rollback id note runner p d d₁ d₂ v f b q in
      let w =
        by_key-update_self (λ (y : Proposal). y.id) id (linked now run note) (marked now note p)
          d₂.proposals id-linked k.proposal in
      let same =
        start_work-proposals t now run x queue runner (mark_applied now run id note d₂) u o h in
      (
        linked now run note (marked now note p),
        ap (λ ys. find (λ (y : Proposal). y.id == id) ys) same ∙ w,
        Linked-Settled run p _ o linked-Linked,
      )

  after_begin-Ends :
      (runner : Runner) (b : Outcome Desk)
      → begin_apply now note id d ≡ b
      → after_begin t now run rollback id note x queue runner p d b ≡ (o, u)
      → Ends
  unfolding after_begin
  after_begin-Ends runner (refused e) b h = stays {e = e} (cc h) (cc h)
  after_begin-Ends runner (did d₁) b h = after_create-Ends runner d₁ _ b refl h

  after_check-Ends :
      (c : Outcome (Runner × Proposal))
      → check_apply t note queue id d ≡ c
      → after_check t now run rollback id note x queue d c ≡ (o, u)
      → Ends
  unfolding after_check
  after_check-Ends (refused e) c h = stays {e = e} (cc h) (cc h)
  after_check-Ends (did (runner, q)) c h =
      let same : q ≡ p = cc (f, check-found t note queue id d runner q c) in
      after_begin-Ends runner _ refl (
        subst
          (λ y.
            after_begin t now run rollback id note x queue runner y d (begin_apply now note id d)
            ≡ (o, u))
          same h)

  -- From a valid state, an application that answers leaves its proposal applied and linked to the run; one
  -- that raises either leaves the proposal's status as it was or comes after that link.
  pub apply_settles :
      apply_agent_assignment_proposal t now run rollback id note x queue d ≡ (o, u)
      → (p' : Proposal) × (proposal_of id u ≡ some p') × Settled run p o p'
  unfolding apply_agent_assignment_proposal
  apply_settles h = after_check-Ends _ refl h
