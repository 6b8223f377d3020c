-- ===== src/Planner/Reported.antt =====
-- src/leon_control_plane/planner_preview.py: what it means that `_conflicts` reports nothing.
use leon_ai_assistant.Base.{
  ℕ, ◌≡◌, refl, inl, inr, ◌&&◌, List, [], ◌∷◌, ◌++◌, some, arith, Bool-cases, Option-cases, ltb,
  All,
}
use leon_ai_assistant.Planner.{Event, Span, overlaps}
use leon_ai_assistant.Planner.Windows.{Apart}
use leon_ai_assistant.Planner.Conflicts.{
  earlier, place, placed, span, sorted_windows, conflicts, overlapping, all_conflicts, conflicts-eq,
}

-- Any two events of the list are apart.
abbrev pub Disjoint : List Event → Type 0
Disjoint [] = Unit
Disjoint (e ∷ events) = All (λ f. Apart e.start e.stop f.start f.stop) events × Disjoint events

abbrev SpanApart : Span → Span → Type 0
SpanApart w v = Apart w.from w.to v.from v.to

abbrev SpansApart : List Span → Type 0
SpansApart [] = Unit
SpansApart (w ∷ windows) = All (SpanApart w) windows × SpansApart windows

nothing_overlaps :
    (w : Span) (windows : List Span) → overlapping w windows ≡ [] → All (SpanApart w) windows
unfolding overlaps
nothing_overlaps w [] h = tt
nothing_overlaps w (v ∷ windows) h = elim (Bool-cases (ltb w.from v.to && ltb v.from w.to)) [
  | inl k ↦ let h' = rw (k) at h in absurd (cc h')
  | inr k ↦ let h' = rw (k) at h in (ground (arith, k), nothing_overlaps w windows h')
]

nothing-append : {A : Type 0} (xs ys : List A) → xs ++ ys ≡ [] → (xs ≡ []) × (ys ≡ [])
nothing-append [] ys h = (refl, h)
nothing-append (x ∷ xs) ys h = absurd (cc h)

nothing_found : (windows : List Span) → all_conflicts windows ≡ [] → SpansApart windows
nothing_found [] h = tt
nothing_found (w ∷ windows) h =
    let (p, q) = nothing-append (overlapping w windows) (all_conflicts windows) h in
    (nothing_overlaps w windows p, nothing_found windows q)

place-All :
    (P : Span → Type 0) (w : Span) (windows : List Span)
    → All P (place w windows)
    → P w × All P windows
unfolding place
place-All P w [] h = h
place-All P w (v ∷ windows) h = elim (Bool-cases (earlier v w)) [
  | inl e ↦ let k = rw (e) at h in let (p, q) = place-All P w windows k.1 in (p, (k.0, q))
  | inr e ↦ let k = rw (e) at h in k
]

place-SpansApart :
    (w : Span) (windows : List Span)
    → SpansApart (place w windows)
    → All (SpanApart w) windows × SpansApart windows
unfolding place
place-SpansApart w [] h = h
place-SpansApart w (v ∷ windows) h = elim (Bool-cases (earlier v w)) [
  | inl e ↦
      let k = rw (e) at h in
      let (p, q) = place-All (SpanApart v) w windows k.0 in
      let (r, s) = place-SpansApart w windows k.1 in
      ((elim p [ inl i ↦ inr i | inr i ↦ inl i ], r), (q, s))
  | inr e ↦ let k = rw (e) at h in k
]

All-events :
    (P : ℕ → ℕ → Type 0) (events : List Event) (windows : List Span)
    → sorted_windows events ≡ some windows
    → All (λ w. P w.from w.to) windows
    → All (λ e. P e.start e.stop) events
All-events P [] windows h a = tt
All-events P (e ∷ events) windows h a =
    let (ws, m, k) = placed e events windows h in
    let (p, q) = place-All (λ w. P w.from w.to) (span e) ws (rw (k) a) in
    (p, All-events P events ws m q)

SpansApart-Disjoint :
    (events : List Event) (windows : List Span)
    → sorted_windows events ≡ some windows
    → SpansApart windows
    → Disjoint events
SpansApart-Disjoint [] windows h a = tt
SpansApart-Disjoint (e ∷ events) windows h a =
    let (ws, m, k) = placed e events windows h in
    let (p, q) = place-SpansApart (span e) ws (rw (k) a) in
    (All-events (Apart e.start e.stop) events ws m p, SpansApart-Disjoint events ws m q)

-- If `_conflicts` reports nothing, then any two of the events are apart: one ends before the other starts.
no_conflict-Disjoint : (events : List Event) → conflicts events ≡ some [] → Disjoint events
unfolding conflicts
no_conflict-Disjoint events h = elim (Option-cases (sorted_windows events)) [
  | inl k ↦ let h' = rw (k) at h in absurd (cc h')
  | inr (ws, k) ↦
      let e : all_conflicts ws ≡ [] = cc (h, conflicts-eq events ws k) in
      SpansApart-Disjoint events ws k (nothing_found ws e)
]
