-- ===== src/Thermal.antt =====
-- src/leon_control_plane/thermal_guard.py: the temperature guard of the local GPU as a state machine.
-- What `systemctl` answers is an argument. The file that `step` writes is the value that it returns.
pub mod Cooling
mod Examples
use leon_ai_assistant.Base.{
  ℕ, ◌+◌, ◌-◌, Bool, true, false, ◌&&◌, ◌||◌, not, List, [], ◌∷◌, Option, none, some, ◌==◌, leb,
  ltb, if◌then◌else◌,
}

pub data Phase : Type 0 where
  trip recovered : Phase

-- The fields of `Guard` that `step` reads or writes; `incident` is the number of the incident.
pub record Guard : Type 0 where
  pub limit : ℕ
  pub cooling : Bool
  pub restart_owed : Bool
  pub incident : Option ℕ
  pub cool_since : Option ℕ

-- The answers to the calls of `control` that one step may make, in their order.
pub record Answers : Type 0 where
  pub active : Bool
  pub stopped : Bool
  pub still_active : Bool
  pub started : Bool
  pub running : Bool

-- A reading, none where the sensor gives no valid temperature, and the two clocks.
pub record Sample : Type 0 where
  pub temperature : Option ℕ
  pub now : ℕ
  pub cool_now : ℕ
  pub new_incident : ℕ
  pub answers : Answers

-- What `step` writes.
pub record Written : Type 0 where
  pub ready : Bool
  pub sampled_at : ℕ
  pub temperature : Option ℕ
  pub limit : ℕ

pub record Stepped : Type 0 where
  pub guard : Guard
  pub transition : Option Phase
  pub written : Written
  pub starts : Bool

-- `if type(temp) is not int or not 0<=temp<=120: temp=None`
unfoldable pub valid_reading : Option ℕ → Option ℕ
valid_reading none = none
valid_reading (some t) = if leb t 120 then some t else none

unfoldable pub is_hot : ℕ → Option ℕ → Bool
is_hot limit none = true
is_hot limit (some t) = leb limit t

-- `temp<=self.limit-9`; the limit is at least 65.
unfoldable pub is_cool : ℕ → Option ℕ → Bool
is_cool limit none = false
is_cool limit (some t) = leb (t + 9) limit

-- The service was asked to stop, and did.
unfoldable pub stop_confirmed : Answers → Bool
stop_confirmed a = a.active && a.stopped && not a.still_active

unfoldable pub tripped : Sample → Guard → Guard
tripped x g = record g {
  cooling = true;
  restart_owed = g.restart_owed || stop_confirmed x.answers;
  incident = if g.cooling then g.incident else some x.new_incident;
  cool_since = none;
}

abbrev pub since : Option ℕ → ℕ → ℕ
since none now = now
since (some t) now = t

unfoldable pub cool_long : Sample → Guard → Bool
cool_long x g = leb (since g.cool_since x.cool_now + 30) x.cool_now

-- `not self.restart_owed or (self.control('start') and self.control('is-active'))`
unfoldable pub restored : Sample → Guard → Bool
restored x g = not g.restart_owed || x.answers.started && x.answers.running

abbrev pub marked : Sample → Guard → Guard
marked x g = record g { cool_since = some (since g.cool_since x.cool_now) }

unfoldable pub recover : Sample → Guard → Guard × Option Phase
unfolding cool_long restored
recover x g =
    if cool_long x g && restored x g
    then (record (marked x g) { cooling = false; restart_owed = false }, some recovered)
    else (marked x g, none)

unfoldable pub moved : Option ℕ → Sample → Guard → Guard × Option Phase
unfolding tripped recover
moved temp x g =
    if is_hot g.limit temp
    then (tripped x g, (if g.cooling then none else some trip))
    else if not g.cooling
    then (g, none)
    else if is_cool g.limit temp
    then recover x g
    else (record g { cool_since = none }, none)

-- The step calls `start`.
unfoldable pub calls_start : Option ℕ → Sample → Guard → Bool
calls_start temp x g =
    not (is_hot g.limit temp)
    && g.cooling
    && is_cool g.limit temp
    && cool_long x g
    && g.restart_owed

unfoldable pub step : Sample → Guard → Stepped
unfolding valid_reading moved
step x g =
    let temp = valid_reading x.temperature in
    let (g', transition) = moved temp x g in
    record {
      guard = g';
      transition = transition;
      written = record {
        ready = not g'.cooling;
        sampled_at = x.now;
        temperature = temp;
        limit = g.limit;
      };
      starts = calls_start temp x g;
    }

-- `available`: the last write says ready, is at most three seconds old, and is for this limit.
unfoldable pub available : ℕ → ℕ → Written → Bool
available limit now w =
    w.ready && leb w.sampled_at now && leb (now - w.sampled_at) 3 && w.limit == limit

abbrev below : ℕ → Option ℕ → Bool
below limit none = false
below limit (some t) = not (leb limit t)

-- `check` passes.
unfoldable pub check : ℕ → ℕ → Written → Bool
unfolding available
check limit now w = available limit now w && below limit w.temperature

-- The guard after a series of samples, the newest first.
unfoldable pub after : List Sample → Guard → Guard
after [] g = g
after (x ∷ samples) g = (step x (after samples g)).guard
