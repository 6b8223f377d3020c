-- ===== src/Planner/Examples.antt =====
-- The theorems on free slots at one day with two events.
use leon_ai_assistant.Base.{◌≤◌, ◌≡◌, refl, List, [], ◌∷◌, ◌++◌, some, arith, All, inl, inr}
use leon_ai_assistant.Planner.{
  Event, Span, Search, Slot, day_slots, days_slots, free_slots, window_start, window_end,
  scan_events, merge_busy_windows, scan, event_window, clipped, overlaps, insert, slot,
}
use leon_ai_assistant.Planner.Conflicts.{
  conflicts, sorted_windows, place, conflicts_of, later_conflicts, conflicts-eq,
}
use leon_ai_assistant.Planner.Windows.{Covered}
use leon_ai_assistant.Planner.Slots.{Fits, free_slots-Fits, day_slots-Covered}

-- The second day: its call is at ten and its lunch, listed first, at noon.
abbrev events : List Event
events =
    record { id = 1; start = 129600; stop = 133200 }
    ∷ record { id = 2; start = 122400; stop = 126000 }
    ∷ []

abbrev search : Search
search = record {
  horizon_start = 86400;
  horizon_end = 172000;
  workday_start = 32400;
  workday_end = 61200;
  duration = 2700;
}

abbrev slots : List Slot
slots = slot 118800 122400 ∷ slot 126000 129600 ∷ slot 133200 147600 ∷ []

day_found : day_slots events search 1 ≡ some slots
unfolding day_slots scan_events merge_busy_windows scan event_window clipped overlaps insert
    window_start window_end
day_found = refl

found : free_slots events search ≡ some slots
unfolding free_slots days_slots day_slots scan_events merge_busy_windows scan event_window clipped
    overlaps insert window_start window_end
found = refl

starts : window_start search 1 ≤ 126100
unfolding window_start
starts = omega arith

ends : 129000 ≤ window_end search 1
unfolding window_end
ends = omega arith

free_slots-Fits_example : All (Fits events search) slots
free_slots-Fits_example = free_slots-Fits events search slots (omega arith) found

day_slots-Covered_example : Covered 126100 129000 slots
day_slots-Covered_example =
    day_slots-Covered events search 1 126100 129000 slots day_found starts ends (omega arith)
      (inl (omega arith), (inr (omega arith), tt))

-- The call, the lunch and a visit during the call, sorted.
abbrev three : List Event
three = events ++ (record { id = 3; start = 124000; stop = 128000 } ∷ [])

abbrev windows : List Span
windows =
    record { from = 122400; to = 126000; id = 2 }
    ∷ record { from = 124000; to = 128000; id = 3 }
    ∷ record { from = 129600; to = 133200; id = 1 }
    ∷ []

sorted : sorted_windows three ≡ some windows
unfolding sorted_windows place event_window
sorted = refl

conflicts-eq_example :
    conflicts three
    ≡ some (record { first = 2; second = 3; overlap_start = 124000; overlap_end = 126000 } ∷ [])
unfolding overlaps
conflicts-eq_example = conflicts-eq three windows sorted

silent : conflicts events ≡ some []
unfolding conflicts conflicts_of later_conflicts sorted_windows place event_window overlaps
silent = refl
