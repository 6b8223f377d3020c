-- ===== src/Thermal/Examples.antt =====
-- The theorems on the temperature guard at a short series of samples.
use leon_ai_assistant.Base.{ℕ, ◌+◌, ◌≤◌, ◌≡◌, refl, true, false, List, [], ◌∷◌, none, some}
use leon_ai_assistant.Thermal.{
  Guard, Sample, Answers, recovered, step, after, moved, recover, valid_reading, is_hot, is_cool,
  stop_confirmed, calls_start, cool_long, check, available,
}
use leon_ai_assistant.Thermal.Cooling.{CoolSince, recovery_needs_cooling}

abbrev guard : Guard
guard = record {
  limit = 80;
  cooling = false;
  restart_owed = false;
  incident = none;
  cool_since = none;
}

abbrev answers : Answers
answers = record {
  active = true;
  stopped = true;
  still_active = false;
  started = true;
  running = true;
}

abbrev at : ℕ → ℕ → Sample
at t now = record {
  temperature = some t;
  now = now;
  cool_now = now;
  new_incident = now;
  answers = answers;
}

-- Newest first: hot, then cool at 5 and at 20.
abbrev samples : List Sample
samples = at 60 20 ∷ at 65 5 ∷ at 85 1 ∷ []

recovers : (step (at 58 40) (after samples guard)).transition ≡ some recovered
unfolding step after moved recover valid_reading is_hot is_cool stop_confirmed
recovers = refl

starts : (step (at 58 40) (after samples guard)).starts ≡ true
unfolding step after moved recover valid_reading is_hot is_cool stop_confirmed calls_start cool_long
starts = refl

passes : check 80 42 (step (at 58 40) (after samples guard)).written ≡ true
unfolding check available step after moved recover valid_reading is_hot is_cool stop_confirmed
passes = refl

recovery_needs_cooling_example : (t : ℕ) × CoolSince 80 t (at 58 40 ∷ samples) × (t + 30 ≤ 40)
recovery_needs_cooling_example = recovery_needs_cooling guard (at 58 40) samples refl recovers

abbrev cooling_guard : Guard
cooling_guard = record guard { cooling = true; restart_owed = true }
