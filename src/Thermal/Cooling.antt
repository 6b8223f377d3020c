-- ===== src/Thermal/Cooling.antt =====
-- src/leon_control_plane/thermal_guard.py: when the guard releases the GPU, and who starts the service.
use leon_ai_assistant.Base.{
  ℕ, ◌+◌, ◌≤◌, ◌<◌, ◌≡◌, refl, ◌∙◌, ◌⊎◌, inl, inr, true, false, List, [], ◌∷◌, Option, none, some,
  arith, Bool-cases, Option-cases, subst,
}
use leon_ai_assistant.Thermal.{
  Guard, Sample, recovered, valid_reading, is_hot, is_cool, stop_confirmed, tripped, since,
  cool_long, recover, moved, calls_start, step, available, check, after,
}

-- Going back in time from the newest, every sample was cool, down to one taken at `t`.
abbrev pub CoolSince : ℕ → ℕ → List Sample → Type 0
CoolSince limit t [] = ⊥
CoolSince limit t (x ∷ samples) =
    (is_cool limit (valid_reading x.temperature) ≡ true)
    × ((x.cool_now ≡ t) ⊎ CoolSince limit t samples)

limit-step : (x : Sample) (g : Guard) → (step x g).guard.limit ≡ g.limit
unfolding step moved tripped recover
limit-step x g = ground arith

limit-after : (samples : List Sample) (g : Guard) → (after samples g).limit ≡ g.limit
unfolding after
limit-after [] g = refl
limit-after (x ∷ samples) g = limit-step x (after samples g) ∙ limit-after samples g

-- The start of the cool stretch that a cool sample continues.
abbrev Continues : Sample → Guard → ℕ → Type 0
Continues x g t =
    (g.cooling ≡ true)
    × (is_cool g.limit (valid_reading x.temperature) ≡ true)
    × (since g.cool_since x.cool_now ≡ t)

-- While the guard is cooling, its mark is set or kept by a cool sample only.
mark-step :
    (x : Sample) (g : Guard) (t : ℕ)
    → (step x g).guard.cooling ≡ true
    → (step x g).guard.cool_since ≡ some t
    → Continues x g t
unfolding step moved tripped recover
mark-step x g t c h = ground arith

recovered-step :
    (x : Sample) (g : Guard)
    → (step x g).transition ≡ some recovered
    → Continues x g (since g.cool_since x.cool_now)
      × (since g.cool_since x.cool_now + 30 ≤ x.cool_now)
unfolding step moved tripped recover cool_long
recovered-step x g h = ground arith

continued :
    (limit t : ℕ) (o : Option ℕ) (x : Sample) (samples : List Sample)
    → is_cool limit (valid_reading x.temperature) ≡ true
    → since o x.cool_now ≡ t
    → ((s : ℕ) → o ≡ some s → CoolSince limit s samples)
    → CoolSince limit t (x ∷ samples)
continued limit t none x samples c e ih = (c, inl e)
continued limit t (some s) x samples c e ih =
    (c, inr (subst (λ k. CoolSince limit k samples) e (ih s refl)))

marked-CoolSince :
    (samples : List Sample) (g : Guard)
    → g.cool_since ≡ none
    → (after samples g).cooling ≡ true
    → (t : ℕ) → (after samples g).cool_since ≡ some t
    → CoolSince g.limit t samples
unfolding after
marked-CoolSince [] g n c t h = cc (n, h)
marked-CoolSince (x ∷ samples) g n c t h =
    let (d, cool, e) = mark-step x (after samples g) t c h in
    let cool' = rw (limit-after samples g) at cool in
    continued g.limit t (after samples g).cool_since x samples cool' e
      (marked-CoolSince samples g n d)

-- A guard that started with no mark reports a recovery only after thirty seconds in which every
-- sample was valid and at least nine degrees below the limit.
pub recovery_needs_cooling :
    (g : Guard) (x : Sample) (samples : List Sample)
    → g.cool_since ≡ none
    → (step x (after samples g)).transition ≡ some recovered
    → (t : ℕ) × CoolSince g.limit t (x ∷ samples) × (t + 30 ≤ x.cool_now)
recovery_needs_cooling g x samples n h =
    let ((d, cool, _), long) = recovered-step x (after samples g) h in
    let cool' = rw (limit-after samples g) at cool in
    (
      since (after samples g).cool_since x.cool_now,
      continued g.limit _ (after samples g).cool_since x samples cool' refl
          (marked-CoolSince samples g n d),
      long,
    )

cooling_ends :
    (x : Sample) (g : Guard)
    → g.cooling ≡ true
    → (step x g).guard.cooling ≡ false
    → (step x g).transition ≡ some recovered
unfolding step moved tripped recover
cooling_ends x g c h = ground arith

-- Once cooling, the guard stops cooling only by a recovery, and meanwhile no local work may start:
-- `check` fails on what the step wrote, at any time and for any limit.
cooling_blocks :
    (x : Sample) (g : Guard) (limit now : ℕ)
    → g.cooling ≡ true
    → ((step x g).transition ≡ some recovered) ⊎ (check limit now (step x g).written ≡ false)
unfolding check available step
cooling_blocks x g limit now c = elim (Bool-cases (step x g).guard.cooling) [
  | inl e ↦ inr (ground (arith, e))
  | inr e ↦ inl (cooling_ends x g c e)
]

-- If `check` passes on what a step wrote, that step read a valid temperature below the limit, at most
-- three seconds before.
check_lem :
    (x : Sample) (g : Guard) (limit now : ℕ)
    → check limit now (step x g).written ≡ true
    → (t : ℕ) × (valid_reading x.temperature ≡ some t)
      × (t < limit)
      × (x.now ≤ now)
      × (now ≤ x.now + 3)
unfolding check available step
check_lem x g limit now h = elim (Option-cases (valid_reading x.temperature)) [
  | inl e ↦ absurd (ground (arith, e))
  | inr (t, e) ↦ (t, e, ground (arith, e), ground (arith, e), ground (arith, e))
]

owed-step :
    (x : Sample) (g : Guard)
    → (step x g).guard.restart_owed ≡ true
    → (g.restart_owed ≡ true)
      ⊎ ((stop_confirmed x.answers ≡ true) × (is_hot g.limit (valid_reading x.temperature) ≡ true))
unfolding step moved tripped recover
owed-step x g h = ground arith

-- Some sample was hot, and the service was seen to stop.
abbrev pub Stopped : ℕ → List Sample → Type 0
Stopped limit [] = ⊥
Stopped limit (x ∷ samples) =
    ((stop_confirmed x.answers ≡ true) × (is_hot limit (valid_reading x.temperature) ≡ true))
    ⊎ Stopped limit samples

owed-Stopped :
    (samples : List Sample) (g : Guard)
    → g.restart_owed ≡ false
    → (after samples g).restart_owed ≡ true
    → Stopped g.limit samples
unfolding after
owed-Stopped [] g n h = cc (n, h)
owed-Stopped (x ∷ samples) g n h = elim (owed-step x (after samples g) h) [
  | inl e ↦ inr (owed-Stopped samples g n e)
  | inr (s, t) ↦ let t' = rw (limit-after samples g) at t in inl (s, t')
]

starts-owed : (x : Sample) (g : Guard) → (step x g).starts ≡ true → g.restart_owed ≡ true
unfolding step calls_start
starts-owed x g h = ground arith

-- A guard that owed no restart asks for a start of the service only if it had stopped the service
-- itself, at a sample that was hot or invalid.
starts_what_it_halted :
    (g : Guard) (x : Sample) (samples : List Sample)
    → g.restart_owed ≡ false
    → (step x (after samples g)).starts ≡ true
    → Stopped g.limit samples
starts_what_it_halted g x samples n h = owed-Stopped samples g n (starts-owed x (after samples g) h)
