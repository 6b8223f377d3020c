-- ===== src/Planner/Slots.antt =====
-- src/leon_control_plane/planner_preview.py: the slots of a day, and its events.
use leon_ai_assistant.Base.{
  ℕ, zero, suc, ◌+◌, ◌-◌, ◌*◌, ◌/◌, ◌≤◌, ◌<◌, ◌≡◌, inl, inr, true, List, [], ◌++◌, some, arith,
  Bool-cases, Option-cases, leb, sym, All, All-append, All-map_of, take, All-take,
}
use leon_ai_assistant.Planner.{
  Event, Span, Slot, Search, merge_busy_windows, scan, scan_events, window_start, window_end,
  day_slots, days_slots, free_slots,
}
use leon_ai_assistant.Planner.Merge.{merge-Sorted, merge-Apart, Apart-merge}
use leon_ai_assistant.Planner.Windows.{Apart, Covered, IsFree, scan-IsFree, scan-Covered}

-- The slot lies in the horizon and in a working day, is long enough, and avoids every event.
abbrev pub Fits : List Event → Search → Slot → Type 0
Fits events s x =
    (s.horizon_start ≤ x.start)
    × (x.stop ≤ s.horizon_end)
    × ((day : ℕ) × (day * 86400 + s.workday_start ≤ x.start)
        × (x.stop ≤ day * 86400 + s.workday_end))
    × (x.start + s.duration ≤ x.stop)
    × All (λ e. Apart x.start x.stop e.start e.stop) events

scanned :
    (events : List Event) (duration start end : ℕ) (slots : List Slot)
    → scan_events events duration start end ≡ some slots
    → (windows : List Span) × (merge_busy_windows events start end ≡ some windows)
      × (scan duration end start windows ≡ slots)
unfolding scan_events
scanned events duration start end slots h =
    elim (Option-cases (merge_busy_windows events start end)) [
      | inl m ↦ let h' = rw (m) at h in absurd (cc h')
      | inr (ws, m) ↦ let h' = rw (m) at h in (ws, m, cc h')
    ]

day_slots-Fits :
    (events : List Event) (s : Search) (day : ℕ) (slots : List Slot)
    → 0 < s.duration
    → day_slots events s day ≡ some slots
    → All (Fits events s) slots
unfolding day_slots window_start window_end
day_slots-Fits events s day slots d h =
    elim (Bool-cases (leb (window_start s day + s.duration) (window_end s day))) [
      | inl k ↦
          let h' = rw (k) at h in
          let l : window_start s day ≤ window_end s day = ground (arith, k) in
          let (ws, m, e) = scanned events s.duration _ _ slots h' in
          let (t, b) = merge-Sorted events _ _ ws l m in
          rw (sym e) (
            All-map_of (IsFree s.duration (window_end s day) (window_start s day) ws)
              (Fits events s) _
              (λ x f. (
                omega (arith, f.0),
                omega (arith, f.2),
                (day, omega (arith, f.0), omega (arith, f.2)),
                f.1,
                merge-Apart events _ _ x.start x.stop ws f.0 (omega (arith, f.1, d)) f.2 m f.3,
              ))
              (scan-IsFree s.duration (window_end s day) (window_start s day) ws t b))
      | inr k ↦ let h' = rw (k) at h in let e : [] ≡ slots = cc h' in rw (sym e) tt
    ]

-- In the slots of a day, before the cut to eight, any time of the day's window that is long enough
-- and avoids every event lies within one slot.
pub day_slots-Covered :
    (events : List Event) (s : Search) (day a b : ℕ) (slots : List Slot)
    → day_slots events s day ≡ some slots
    → window_start s day ≤ a
    → b ≤ window_end s day
    → a + s.duration ≤ b
    → All (λ e. Apart a b e.start e.stop) events
    → Covered a b slots
unfolding day_slots
day_slots-Covered events s day a b slots h l n d p =
    let k : leb (window_start s day + s.duration) (window_end s day) ≡ true = ground arith in
    let h' = rw (k) at h in
    let (ws, m, e) = scanned events s.duration _ _ slots h' in
    rw (sym e) (scan-Covered s.duration _ _ a b ws l n d (Apart-merge events _ _ a b ws l n m p))

days_slots-Fits :
    (events : List Event) (s : Search) (days day : ℕ) (slots : List Slot)
    → 0 < s.duration
    → days_slots events s days day ≡ some slots
    → All (Fits events s) slots
unfolding days_slots
days_slots-Fits events s zero day slots d h = let e : [] ≡ slots = cc h in rw (sym e) tt
days_slots-Fits events s (suc days) day slots d h = elim (Option-cases (day_slots events s day)) [
  | inl k ↦ let h' = rw (k) at h in absurd (cc h')
  | inr (xs, k) ↦
      let h' = rw (k) at h in
      elim (Option-cases (days_slots events s days (suc day))) [
        | inl m ↦ let h'' = rw (m) at h' in absurd (cc h'')
        | inr (ys, m) ↦
            let h'' = rw (m) at h' in
            let e : xs ++ ys ≡ slots = cc h'' in
            rw (sym e) (
              All-append (Fits events s) xs ys (day_slots-Fits events s day xs d k)
                (days_slots-Fits events s days (suc day) ys d m))
      ]
]

-- With a positive duration, every slot that is found lies in the horizon and in the working hours of a
-- day, is at least that long, and avoids every event.
pub free_slots-Fits :
    (events : List Event) (s : Search) (slots : List Slot)
    → 0 < s.duration
    → free_slots events s ≡ some slots
    → All (Fits events s) slots
unfolding free_slots
free_slots-Fits events s slots d h =
    elim (Option-cases (
      days_slots events s (s.horizon_end / 86400 + 1 - s.horizon_start / 86400)
        (s.horizon_start / 86400))) [
          | inl k ↦ let h' = rw (k) at h in absurd (cc h')
          | inr (xs, k) ↦
              let h' = rw (k) at h in
              let e : take 8 xs ≡ slots = cc h' in
              rw (sym e) (All-take (Fits events s) 8 xs (days_slots-Fits events s _ _ xs d k))
        ]
