-- ===== src/Planner/Merge.antt =====
-- src/leon_control_plane/planner_preview.py: what `_merge_busy_windows` keeps of the events.
use leon_ai_assistant.Base.{
  ℕ, ◌≤◌, ◌<◌, ◌≡◌, inl, inr, ◌&&◌, List, [], ◌∷◌, some, arith, Bool-cases, Option-cases, ltb, sym,
  All,
}
use leon_ai_assistant.Planner.{Event, Span, event_window, overlaps, clipped, merge_busy_windows}
use leon_ai_assistant.Planner.Windows.{Apart, Sorted, All-insert, insert-All, insert-Sorted}

clipped-Sorted :
    (e : Event) (start end : ℕ) (windows : List Span)
    → start ≤ end
    → Sorted windows × All (λ w. w.from ≤ end) windows
    → Sorted (clipped e start end windows) × All (λ w. w.from ≤ end) (clipped e start end windows)
unfolding clipped overlaps
clipped-Sorted e start end windows l h = elim (Bool-cases (ltb start e.stop && ltb e.start end)) [
  | inl k ↦ rw (k) (
    insert-Sorted _ windows h.0,
    All-insert (λ w. w.from ≤ end) _ windows (ground (arith, k)) h.1,
  )
  | inr k ↦ rw (k) h
]

-- A time inside the window avoids the event if it avoids the clipped windows, and conversely.
clipped-Apart :
    (e : Event) (start end a b : ℕ) (windows : List Span)
    → start ≤ a
    → a < b
    → b ≤ end
    → All (λ w. Apart a b w.from w.to) (clipped e start end windows)
    → Apart a b e.start e.stop × All (λ w. Apart a b w.from w.to) windows
unfolding clipped overlaps
clipped-Apart e start end a b windows l m n h =
    elim (Bool-cases (ltb start e.stop && ltb e.start end)) [
      | inl k ↦
          let h' = rw (k) at h in
          let (p, q) = insert-All (λ w. Apart a b w.from w.to) _ windows h' in
          (elim p [ inl i ↦ inl (omega (arith, i)) | inr i ↦ inr (omega (arith, i)) ], q)
      | inr k ↦ let h' = rw (k) at h in (ground (arith, k), h')
    ]

Apart-clipped :
    (e : Event) (start end a b : ℕ) (windows : List Span)
    → start ≤ a
    → b ≤ end
    → Apart a b e.start e.stop
    → All (λ w. Apart a b w.from w.to) windows
    → All (λ w. Apart a b w.from w.to) (clipped e start end windows)
unfolding clipped overlaps
Apart-clipped e start end a b windows l n p h =
    elim (Bool-cases (ltb start e.stop && ltb e.start end)) [
      | inl k ↦ rw (k) (
          All-insert (λ w. Apart a b w.from w.to) _ windows
            (elim p [ inl i ↦ inl (omega (arith, i)) | inr i ↦ inr (omega (arith, i)) ]) h)
      | inr k ↦ rw (k) h
    ]

-- What a successful merge says of the first event.
merged :
    (e : Event) (events : List Event) (start end : ℕ) (windows : List Span)
    → merge_busy_windows (e ∷ events) start end ≡ some windows
    → (ws : List Span) × (merge_busy_windows events start end ≡ some ws)
      × (clipped e start end ws ≡ windows)
unfolding merge_busy_windows
merged e events start end windows h = elim (Option-cases (event_window e)) [
  | inl k ↦ let h' = rw (k) at h in absurd (cc h')
  | inr (_, k) ↦
      let h' = rw (k) at h in
      elim (Option-cases (merge_busy_windows events start end)) [
        | inl m ↦ let h'' = rw (m) at h' in absurd (cc h'')
        | inr (ws, m) ↦ let h'' = rw (m) at h' in (ws, m, cc h'')
      ]
]

pub merge-Sorted :
    (events : List Event) (start end : ℕ) (windows : List Span)
    → start ≤ end
    → merge_busy_windows events start end ≡ some windows
    → Sorted windows × All (λ w. w.from ≤ end) windows
unfolding merge_busy_windows
merge-Sorted [] start end windows l h = let e : [] ≡ windows = cc h in rw (sym e) (tt, tt)
merge-Sorted (e ∷ events) start end windows l h =
    let (ws, m, k) = merged e events start end windows h in
    rw (sym k) (clipped-Sorted e start end ws l (merge-Sorted events start end ws l m))

pub merge-Apart :
    (events : List Event) (start end a b : ℕ) (windows : List Span)
    → start ≤ a
    → a < b
    → b ≤ end
    → merge_busy_windows events start end ≡ some windows
    → All (λ w. Apart a b w.from w.to) windows
    → All (λ e. Apart a b e.start e.stop) events
merge-Apart [] start end a b windows l m n h p = tt
merge-Apart (e ∷ events) start end a b windows l m n h p =
    let (ws, i, k) = merged e events start end windows h in
    let (q, qs) = clipped-Apart e start end a b ws l m n (rw (k) p) in
    (q, merge-Apart events start end a b ws l m n i qs)

pub Apart-merge :
    (events : List Event) (start end a b : ℕ) (windows : List Span)
    → start ≤ a
    → b ≤ end
    → merge_busy_windows events start end ≡ some windows
    → All (λ e. Apart a b e.start e.stop) events
    → All (λ w. Apart a b w.from w.to) windows
unfolding merge_busy_windows
Apart-merge [] start end a b windows l n h p = let e : [] ≡ windows = cc h in rw (sym e) tt
Apart-merge (e ∷ events) start end a b windows l n h p =
    let (ws, i, k) = merged e events start end windows h in
    rw (sym k)
      (Apart-clipped e start end a b ws l n p.0 (Apart-merge events start end a b ws l n i p.1))
