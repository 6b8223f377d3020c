-- ===== src/Audit/Chain.antt =====
-- src/leon_control_plane/store.py: appending to the chain, and what its last hash stands for.
use leon_ai_assistant.Base.{
  ℕ, ◌<◌, ◌≡◌, ◌≢◌, refl, sym, ◌∙◌, ap, inl, inr, true, ◌&&◌, String, List, [], ◌∷◌, ◌++◌, arith,
  Bool-cases, eq_iff, All, All-map_of,
}
use leon_ai_assistant.Audit.{
  Body, Row, Draft, Tools, genesis, next_sequence, last_hash, cleaned, drafted, append_audit_event,
  in_order, links, check_chain, validate_audit_hash_chain,
}

-- The hash after the rows.
end : String → List Row → String
end previous [] = previous
end previous (r ∷ rows) = end r.event_hash rows

end-append :
    (previous : String) (rows : List Row) (r : Row) → end previous (rows ++ (r ∷ [])) ≡ r.event_hash
unfolding end
end-append previous [] r = refl
end-append previous (x ∷ rows) r = end-append x.event_hash rows r

end-in_order : (log : List Row) → end genesis (in_order log) ≡ last_hash log
unfolding end in_order last_hash
end-in_order [] = refl
end-in_order (r ∷ log) = end-append genesis (in_order log) r

check_chain-append :
    (t : Tools) (previous : String) (rows : List Row) (r : Row)
    → check_chain t previous (rows ++ (r ∷ []))
      ≡ (check_chain t previous rows && links t (end previous rows) r)
unfolding check_chain end
check_chain-append t previous [] r = ground arith
check_chain-append t previous (x ∷ rows) r = elim (Bool-cases (links t previous x)) [
  | inl e ↦ rw e (check_chain-append t x.event_hash rows r)
  | inr e ↦ rw e refl
]

-- The newest row of a valid log hangs on a valid log.
validate-cons :
    (t : Tools) (r : Row) (log : List Row)
    → validate_audit_hash_chain t (r ∷ log)
      ≡ (validate_audit_hash_chain t log && links t (last_hash log) r)
unfolding validate_audit_hash_chain in_order
validate-cons t r log =
    check_chain-append t genesis (in_order log) r
    ∙ ap (λ h. check_chain t genesis (in_order log) && links t h r) (end-in_order log)

-- Newest first, the sequence falls.
abbrev pub IsOrdered : List Row → Type 0
IsOrdered [] = Unit
IsOrdered (r ∷ log) = All (λ (x : Row). x.body.sequence < r.body.sequence) log × IsOrdered log

append-IsOrdered :
    (log : List Row) (r : Row)
    → r.body.sequence ≡ next_sequence log
    → IsOrdered log
    → IsOrdered (r ∷ log)
unfolding next_sequence
append-IsOrdered [] r e o = (tt, tt)
append-IsOrdered (x ∷ log) r e o = (
  (
    omega (arith, e),
    All-map_of (λ (y : Row). y.body.sequence < x.body.sequence)
        (λ (y : Row). y.body.sequence < r.body.sequence) log (λ y h. omega (arith, e, h)) o.0,
  ),
  o,
)

-- Appending an event to a valid, ordered log gives a valid, ordered log.
pub append_audit_event-valid :
    (t : Tools) (id now : ℕ) (d : Draft) (log : List Row)
    → IsOrdered log
    → validate_audit_hash_chain t log ≡ true
    → IsOrdered (append_audit_event t id now d log)
      × (validate_audit_hash_chain t (append_audit_event t id now d log) ≡ true)
unfolding append_audit_event drafted
append_audit_event-valid t id now d log o v =
    let body = drafted t id now (cleaned t d) log in
    let r : Row = record { body = body; event_hash = t.digest body } in
    (
      append-IsOrdered log r refl o,
      validate-cons t r log
          ∙ ground (
            arith,
            v,
            eq_iff (last_hash log) (last_hash log),
            eq_iff (t.digest body) (t.digest body),
          ),
    )

Row-eq : (a b : Row) → a.body ≡ b.body → a.event_hash ≡ b.event_hash → a ≡ b
Row-eq a b p q = ground (arith, p, q)

valid-newest :
    (t : Tools) (r : Row) (log : List Row)
    → validate_audit_hash_chain t (r ∷ log) ≡ true
    → (validate_audit_hash_chain t log ≡ true)
      × (r.body.prev_hash ≡ last_hash log)
      × (r.event_hash ≡ t.digest r.body)
valid-newest t r log v = ground (
  arith,
  validate-cons t r log,
  eq_iff r.body.prev_hash (last_hash log),
  eq_iff r.event_hash (t.digest r.body),
)

-- No two events of the logs collide, and none has the word of the first link for its digest.
abbrev pub Apart : Tools → List Row → List Row → Type 0
Apart t a b =
    All (λ (x : Row). All (λ (y : Row). t.digest x.body ≡ t.digest y.body → x.body ≡ y.body) b) a

abbrev pub Fresh : Tools → List Row → Type 0
Fresh t log = All (λ (x : Row). t.digest x.body ≢ genesis) log

-- Two valid logs with the same last hash are the same log, if their events' digests do not collide and
-- are never the word of the first link: no earlier event can be changed, dropped, added or moved.
pub last_hash_commits :
    (t : Tools) (a b : List Row)
    → Apart t a b
    → Fresh t a
    → Fresh t b
    → validate_audit_hash_chain t a ≡ true
    → validate_audit_hash_chain t b ≡ true
    → last_hash a ≡ last_hash b
    → a ≡ b
unfolding last_hash
last_hash_commits t [] [] inj fa fb va vb e = refl
last_hash_commits t [] (r ∷ b) inj fa fb va vb e =
    absurd (fb.0 (sym (valid-newest t r b vb).2 ∙ sym e))
last_hash_commits t (r ∷ a) [] inj fa fb va vb e = absurd (fa.0 (sym (valid-newest t r a va).2 ∙ e))
last_hash_commits t (r ∷ a) (s ∷ b) inj fa fb va vb e =
    let (wa, pa, da) = valid-newest t r a va in
    let (wb, pb, db) = valid-newest t s b vb in
    let body = inj.0.0 (sym da ∙ e ∙ db) in
    let apart : Apart t a b =
      All-map_of
        (λ (x : Row).
          All (λ (y : Row). t.digest x.body ≡ t.digest y.body → x.body ≡ y.body) (s ∷ b))
        (λ (x : Row). All (λ (y : Row). t.digest x.body ≡ t.digest y.body → x.body ≡ y.body) b) a
        (λ x h. h.1) inj.1 in
    let rest =
      last_hash_commits t a b apart fa.1 fb.1 wa wb
        (sym pa ∙ ap (λ (x : Body). x.prev_hash) body ∙ pb) in
    let row = Row-eq r s body e in cc
