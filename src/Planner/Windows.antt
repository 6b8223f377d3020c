-- ===== src/Planner/Windows.antt =====
-- src/leon_control_plane/planner_preview.py: sorted windows, and what the scan of them keeps.
use leon_ai_assistant.Base.{
  ℕ, ◌+◌, ◌≤◌, max, ◌≡◌, ◌⊎◌, inl, inr, true, List, [], ◌∷◌, arith, Bool-cases, leb, All,
  All-map_of,
}
use leon_ai_assistant.Planner.{Span, Slot, before, insert, scan}

abbrev pub Apart : ℕ → ℕ → ℕ → ℕ → Type 0
Apart a b c d = (b ≤ c) ⊎ (d ≤ a)

abbrev pub Sorted : List Span → Type 0
Sorted [] = Unit
Sorted (w ∷ windows) = All (λ v. w.from ≤ v.from) windows × Sorted windows

pub All-insert :
    (P : Span → Type 0) (w : Span) (windows : List Span)
    → P w
    → All P windows
    → All P (insert w windows)
unfolding insert
All-insert P w [] p h = (p, tt)
All-insert P w (v ∷ windows) p h = elim (Bool-cases (before v w)) [
  | inl e ↦ rw (e) (h.0, All-insert P w windows p h.1)
  | inr e ↦ rw (e) (p, h)
]

pub insert-All :
    (P : Span → Type 0) (w : Span) (windows : List Span)
    → All P (insert w windows)
    → P w × All P windows
unfolding insert
insert-All P w [] h = h
insert-All P w (v ∷ windows) h = elim (Bool-cases (before v w)) [
  | inl e ↦ let k = rw (e) at h in let (p, q) = insert-All P w windows k.1 in (p, (k.0, q))
  | inr e ↦ let k = rw (e) at h in k
]

pub insert-Sorted : (w : Span) (windows : List Span) → Sorted windows → Sorted (insert w windows)
unfolding insert
insert-Sorted w [] h = (tt, tt)
insert-Sorted w (v ∷ windows) h = elim (Bool-cases (before v w)) [
  | inl e ↦ rw (e) (
    All-insert (λ u. v.from ≤ u.from) w windows (ground (arith, e)) h.0,
    insert-Sorted w windows h.1,
  )
  | inr e ↦ rw (e) (
    (
      ground (arith, e),
      All-map_of (λ u. v.from ≤ u.from) (λ u. w.from ≤ u.from) windows (λ u k. ground (arith, k, e))
          h.0,
    ),
    h,
  )
]

-- A slot lies between the cursor and the end, is long enough, and avoids the windows.
abbrev pub IsFree : ℕ → ℕ → ℕ → List Span → Slot → Type 0
IsFree duration end cursor windows x =
    (cursor ≤ x.start)
    × (x.start + duration ≤ x.stop)
    × (x.stop ≤ end)
    × All (λ w. Apart x.start x.stop w.from w.to) windows

pub scan-IsFree :
    (duration end cursor : ℕ) (windows : List Span)
    → Sorted windows
    → All (λ w. w.from ≤ end) windows
    → All (IsFree duration end cursor windows) (scan duration end cursor windows)
unfolding scan
scan-IsFree duration end cursor [] s b = elim (Bool-cases (leb (cursor + duration) end)) [
  | inl e ↦ rw (e) ((omega arith, ground (arith, e), omega arith, tt), tt)
  | inr e ↦ rw (e) tt
]
scan-IsFree duration end cursor (w ∷ windows) s b =
    let ih =
      All-map_of (IsFree duration end (max cursor w.to) windows)
        (IsFree duration end cursor (w ∷ windows)) _
        (λ x k. (omega (arith, k.0), k.1, k.2, (inr (omega (arith, k.0)), k.3)))
        (scan-IsFree duration end (max cursor w.to) windows s.1 b.1) in
    elim (Bool-cases (leb (cursor + duration) w.from)) [
      | inl e ↦ rw (e) (
        (
          omega arith,
          ground (arith, e),
          b.0,
          (inl (omega arith), All-map_of (λ v. w.from ≤ v.from) _ windows (λ v k. inl k) s.0),
        ),
        ih,
      )
      | inr e ↦ rw (e) ih
    ]

abbrev pub Covered : ℕ → ℕ → List Slot → Type 0
Covered a b [] = ⊥
Covered a b (x ∷ slots) = ((x.start ≤ a) × (b ≤ x.stop)) ⊎ Covered a b slots

pub scan-Covered :
    (duration end cursor a b : ℕ) (windows : List Span)
    → cursor ≤ a
    → b ≤ end
    → a + duration ≤ b
    → All (λ w. Apart a b w.from w.to) windows
    → Covered a b (scan duration end cursor windows)
unfolding scan
scan-Covered duration end cursor a b [] c e d h =
    let k : leb (cursor + duration) end ≡ true = ground arith in rw (k) (inl (c, e))
scan-Covered duration end cursor a b (w ∷ windows) c e d (inl h, hs) =
    let k : leb (cursor + duration) w.from ≡ true = ground arith in rw (k) (inl (c, h))
scan-Covered duration end cursor a b (w ∷ windows) c e d (inr h, hs) =
    let ih = scan-Covered duration end (max cursor w.to) a b windows (omega arith) e d hs in
    elim (Bool-cases (leb (cursor + duration) w.from)) [
      | inl k ↦ rw (k) (inr ih)
      | inr k ↦ rw (k) ih
    ]
