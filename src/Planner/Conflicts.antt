-- ===== src/Planner/Conflicts.antt =====
-- src/leon_control_plane/planner_preview.py: `_conflicts`, which sorts the events by their start and
-- stops each inner loop at the first event that starts too late.
use leon_ai_assistant.Base.{
  ℕ, ◌≤◌, ◌≡◌, refl, inl, inr, min, max, Bool, ◌&&◌, ◌||◌, false, List, [], ◌∷◌, ◌++◌, Option, some,
  arith, Bool-cases, Option-cases, ◌==◌, leb, ltb, if◌then◌else◌, sym, All, All-map_of,
}
use leon_ai_assistant.Planner.{Event, Span, event_window, overlaps, ◌>>=◌}
use leon_ai_assistant.Planner.Windows.{Sorted}

-- Its titles only accompany the ids.
pub record Conflict : Type 0 where
  pub first : ℕ
  pub second : ℕ
  pub overlap_start : ℕ
  pub overlap_end : ℕ

abbrev pub earlier : Span → Span → Bool
earlier u v = ltb u.from v.from || u.from == v.from && ltb u.to v.to

unfoldable pub place : Span → List Span → List Span
place w [] = w ∷ []
place w (v ∷ windows) =
    let rest = place w windows in if earlier v w then v ∷ rest else w ∷ v ∷ windows

unfoldable pub sorted_windows : List Event → Option (List Span)
unfolding place event_window
sorted_windows [] = some []
sorted_windows (e ∷ events) = do
  w ← event_window e
  windows ← sorted_windows events
  some (place (record { from = w.0; to = w.1; id = e.id }) windows)

abbrev pub conflict : Span → Span → Conflict
conflict w v = record {
  first = w.id;
  second = v.id;
  overlap_start = max w.from v.from;
  overlap_end = min w.to v.to;
}

-- The inner loop, with its `break`.
unfoldable pub later_conflicts : Span → List Span → List Conflict
unfolding overlaps
later_conflicts w [] = []
later_conflicts w (v ∷ windows) =
    let rest = later_conflicts w windows in
    if leb w.to v.from
    then []
    else if overlaps w.from w.to v.from v.to
    then conflict w v ∷ rest
    else rest

unfoldable pub conflicts_of : List Span → List Conflict
unfolding later_conflicts
conflicts_of [] = []
conflicts_of (w ∷ windows) = later_conflicts w windows ++ conflicts_of windows

unfoldable pub conflicts : List Event → Option (List Conflict)
unfolding sorted_windows conflicts_of
conflicts events = do windows ← sorted_windows events; some (conflicts_of windows)

-- Without the `break`: every later window is tried.
abbrev pub overlapping : Span → List Span → List Conflict
overlapping w [] = []
overlapping w (v ∷ windows) =
    if overlaps w.from w.to v.from v.to
    then conflict w v ∷ overlapping w windows
    else overlapping w windows

abbrev pub all_conflicts : List Span → List Conflict
all_conflicts [] = []
all_conflicts (w ∷ windows) = overlapping w windows ++ all_conflicts windows

none_later :
    (w : Span) (windows : List Span) → All (λ v. w.to ≤ v.from) windows → overlapping w windows ≡ []
unfolding overlaps
none_later w [] h = refl
none_later w (v ∷ windows) h =
    let k : overlaps w.from w.to v.from v.to ≡ false = ground (arith, h.0) in
    rw (k) (none_later w windows h.1)

later_conflicts-eq :
    (w : Span) (windows : List Span)
    → Sorted windows
    → later_conflicts w windows ≡ overlapping w windows
unfolding later_conflicts
later_conflicts-eq w [] s = refl
later_conflicts-eq w (v ∷ windows) s = elim (Bool-cases (leb w.to v.from)) [
  | inl k ↦ rw (k) (
      sym (
        none_later w (v ∷ windows) (
          ground (arith, k),
          All-map_of (λ u. v.from ≤ u.from) (λ u. w.to ≤ u.from) windows
              (λ u l. ground (arith, k, l)) s.0,
        )))
  | inr k ↦ rw (k, later_conflicts-eq w windows s.1) refl
]

conflicts_of-eq :
    (windows : List Span) → Sorted windows → conflicts_of windows ≡ all_conflicts windows
unfolding conflicts_of
conflicts_of-eq [] s = refl
conflicts_of-eq (w ∷ windows) s =
    rw (later_conflicts-eq w windows s.1, conflicts_of-eq windows s.1) refl

All-place :
    (P : Span → Type 0) (w : Span) (windows : List Span)
    → P w
    → All P windows
    → All P (place w windows)
unfolding place
All-place P w [] p h = (p, tt)
All-place P w (v ∷ windows) p h = elim (Bool-cases (earlier v w)) [
  | inl e ↦ rw (e) (h.0, All-place P w windows p h.1)
  | inr e ↦ rw (e) (p, h)
]

place-Sorted : (w : Span) (windows : List Span) → Sorted windows → Sorted (place w windows)
unfolding place
place-Sorted w [] h = (tt, tt)
place-Sorted w (v ∷ windows) h = elim (Bool-cases (earlier v w)) [
  | inl e ↦ rw (e) (
    All-place (λ u. v.from ≤ u.from) w windows (ground (arith, e)) h.0,
    place-Sorted w windows h.1,
  )
  | inr e ↦ rw (e) (
    (
      ground (arith, e),
      All-map_of (λ u. v.from ≤ u.from) (λ u. w.from ≤ u.from) windows (λ u k. ground (arith, k, e))
          h.0,
    ),
    h,
  )
]

abbrev pub span : Event → Span
span e = record { from = e.start; to = e.stop; id = e.id }

-- What a successful sort says of the first event.
pub placed :
    (e : Event) (events : List Event) (windows : List Span)
    → sorted_windows (e ∷ events) ≡ some windows
    → (ws : List Span) × (sorted_windows events ≡ some ws) × (place (span e) ws ≡ windows)
unfolding sorted_windows event_window
placed e events windows h = elim (Bool-cases (leb e.stop e.start)) [
  | inl k ↦ let h' = rw (k) at h in absurd (cc h')
  | inr k ↦
      let h' = rw (k) at h in
      elim (Option-cases (sorted_windows events)) [
        | inl m ↦ let h'' = rw (m) at h' in absurd (cc h'')
        | inr (ws, m) ↦ let h'' = rw (m) at h' in (ws, m, cc h'')
      ]
]

sorted_windows-Sorted :
    (events : List Event) (windows : List Span)
    → sorted_windows events ≡ some windows
    → Sorted windows
unfolding sorted_windows
sorted_windows-Sorted [] windows h = let e : [] ≡ windows = cc h in rw (sym e) tt
sorted_windows-Sorted (e ∷ events) windows h =
    let (ws, m, k) = placed e events windows h in
    rw (sym k) (place-Sorted _ ws (sorted_windows-Sorted events ws m))

-- The `break` loses nothing: `_conflicts` reports the conflicts that trying every pair of its sorted
-- windows finds, in the same order.
pub conflicts-eq :
    (events : List Event) (windows : List Span)
    → sorted_windows events ≡ some windows
    → conflicts events ≡ some (all_conflicts windows)
unfolding conflicts
conflicts-eq events windows h =
    rw (h, conflicts_of-eq windows (sorted_windows-Sorted events windows h)) refl
