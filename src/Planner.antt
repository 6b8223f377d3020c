-- ===== src/Planner.antt =====
-- src/leon_control_plane/planner_preview.py: the search for free slots between calendar events.
-- Times are seconds in one fixed time zone, so that comparing and `elapsed` agree.
pub mod Windows
pub mod Merge
pub mod Slots
pub mod Conflicts
pub mod Reported
mod Examples
use leon_ai_assistant.Base.{
  ℕ, zero, suc, ◌+◌, ◌-◌, ◌*◌, ◌/◌, min, max, Bool, true, false, ◌&&◌, ◌||◌, List, [], ◌∷◌, ◌++◌,
  Option, none, some, ◌==◌, leb, ltb, if◌then◌else◌, take,
}

infixl 5 ◌>>=◌
abbrev pub ◌>>=◌ {ℓ κ} : {X : Type ℓ} {Y : Type κ} → Option X → (X → Option Y) → Option Y
none >>= rest = none
some value >>= rest = rest value

pub record Event : Type 0 where
  pub id : ℕ
  pub start : ℕ
  pub stop : ℕ

-- A window or a slot.
pub record Span : Type 0 where
  pub from : ℕ
  pub to : ℕ
  pub id : ℕ

pub record Slot : Type 0 where
  pub start : ℕ
  pub stop : ℕ
  pub minutes : ℕ

-- The arguments of `_free_slots` but the events.
pub record Search : Type 0 where
  pub horizon_start : ℕ
  pub horizon_end : ℕ
  pub workday_start : ℕ
  pub workday_end : ℕ
  pub duration : ℕ

-- An event that does not end after it starts is an error.
unfoldable pub event_window : Event → Option (ℕ × ℕ)
event_window e = if leb e.stop e.start then none else some (e.start, e.stop)

unfoldable pub overlaps : ℕ → ℕ → ℕ → ℕ → Bool
overlaps a_start a_end b_start b_end = ltb a_start b_end && ltb b_start a_end

abbrev pub before : Span → Span → Bool
before u v =
    ltb u.from v.from || u.from == v.from && (ltb u.to v.to || u.to == v.to && ltb u.id v.id)

-- `sorted` is stable: a new window goes before the first window that is not before it.
unfoldable pub insert : Span → List Span → List Span
insert w [] = w ∷ []
insert w (v ∷ windows) =
    let rest = insert w windows in if before v w then v ∷ rest else w ∷ v ∷ windows

unfoldable pub clipped : Event → ℕ → ℕ → List Span → List Span
unfolding overlaps
clipped e start end windows =
    if overlaps start end e.start e.stop
    then insert (record { from = max start e.start; to = min end e.stop; id = e.id }) windows
    else windows

unfoldable pub merge_busy_windows : List Event → ℕ → ℕ → Option (List Span)
unfolding event_window clipped
merge_busy_windows [] start end = some []
merge_busy_windows (e ∷ events) start end = do
  _ ← event_window e
  windows ← merge_busy_windows events start end
  some (clipped e start end windows)

abbrev pub slot : ℕ → ℕ → Slot
slot start stop = record { start = start; stop = stop; minutes = (stop - start) / 60 }

-- The inner loop, with the check after it.
unfoldable pub scan : ℕ → ℕ → ℕ → List Span → List Slot
scan duration end cursor [] = if leb (cursor + duration) end then slot cursor end ∷ [] else []
scan duration end cursor (w ∷ windows) =
    let rest = scan duration end (max cursor w.to) windows in
    if leb (cursor + duration) w.from then slot cursor w.from ∷ rest else rest

unfoldable pub window_start : Search → ℕ → ℕ
window_start s day = max s.horizon_start (day * 86400 + s.workday_start)

unfoldable pub window_end : Search → ℕ → ℕ
window_end s day = min s.horizon_end (day * 86400 + s.workday_end)

unfoldable pub scan_events : List Event → ℕ → ℕ → ℕ → Option (List Slot)
unfolding merge_busy_windows scan
scan_events events duration start end = do
  windows ← merge_busy_windows events start end
  some (scan duration end start windows)

-- One round of the loop on days.
unfoldable pub day_slots : List Event → Search → ℕ → Option (List Slot)
unfolding window_start window_end scan_events
day_slots events s day =
    if leb (window_start s day + s.duration) (window_end s day)
    then scan_events events s.duration (window_start s day) (window_end s day)
    else some []

-- `days` rounds, from `day` on.
unfoldable pub days_slots : List Event → Search → ℕ → ℕ → Option (List Slot)
days_slots events s zero day = some []
days_slots events s (suc days) day = do
  slots ← day_slots events s day
  rest ← days_slots events s days (suc day)
  some (slots ++ rest)

unfoldable pub free_slots : List Event → Search → Option (List Slot)
unfolding days_slots
free_slots events s = do
  slots ←
      days_slots events s (s.horizon_end / 86400 + 1 - s.horizon_start / 86400)
        (s.horizon_start / 86400)
  some (take 8 slots)
