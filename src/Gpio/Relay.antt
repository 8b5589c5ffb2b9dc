-- ===== src/Gpio/Relay.antt =====
-- The relay of main/gpio_control.c: it is never switched twice within the minimum interval, and
-- the recorded state is that of the pin.
use esp32_web_terminal.Prelude.{
  ℕ, ◌+◌, ◌*◌, ◌≤◌, ◌<◌, ◌≡◌, ◌≢◌, refl, sym, ◌∙◌, ◌⊎◌, inl, inr, Bool, true, false, not, List, [],
  ◌∷◌, arith, All, if◌then◌else◌, Bool-cases,
}
use esp32_web_terminal.Gpio.{
  sbc_power, PinCall, set_level, min_power_toggle_ms, Status, ok, invalid_state, Outcome, power_set,
  same, too_fast, Request, power_on, power_off, power_toggle, reset, handle,
}

switches : List PinCall → Bool
switches [] = false
switches (set_level sbc_power level ∷ cs) = true
switches (c ∷ cs) = switches cs

-- The times at which requests drive the relay's pin.
unfoldable pub switch_times : List (Request × ℕ) → Status → List ℕ
unfolding switches handle
switch_times [] s = []
switch_times ((r, now) ∷ rs) s =
    let rest = switch_times rs (handle r now s).1 in
    if switches (handle r now s).2 then now ∷ rest else rest

-- Each time is at least the minimum interval after the one before it.
abbrev pub SpacedFrom : ℕ → List ℕ → Type 0
SpacedFrom last [] = Unit {0}
SpacedFrom last (now ∷ later) =
    ((last ≡ 0) ⊎ (last + min_power_toggle_ms * 1000 ≤ now)) × SpacedFrom now later

SpacedFrom-cons :
    (now : ℕ) (r : Request) (rs : List (Request × ℕ)) (s : Status)
    → SpacedFrom (handle r now s).1.last_power_toggle (switch_times rs (handle r now s).1)
    → SpacedFrom s.last_power_toggle (switch_times ((r, now) ∷ rs) s)
unfolding switch_times
SpacedFrom-cons now power_on rs s h = ground (arith, h)
SpacedFrom-cons now power_off rs s h = ground (arith, h)
SpacedFrom-cons now power_toggle rs s h = ground (arith, h)
SpacedFrom-cons now reset rs s h = ground (arith, h)

switch_times-SpacedFrom :
    (rs : List (Request × ℕ)) (s : Status) → SpacedFrom s.last_power_toggle (switch_times rs s)
switch_times-SpacedFrom [] s = no_switches s
  where
    no_switches : (s : Status) → SpacedFrom s.last_power_toggle (switch_times [] s)
    no_switches s = unfold switch_times in tt
switch_times-SpacedFrom ((r, now) ∷ rs) s =
    SpacedFrom-cons now r rs s (switch_times-SpacedFrom rs (handle r now s).1)

-- Consecutive times are at least the minimum interval apart.
abbrev pub Apart : ℕ → List ℕ → Type 0
Apart last [] = Unit {0}
Apart last (now ∷ later) = (last + min_power_toggle_ms * 1000 ≤ now) × Apart now later

-- The clock, in microseconds since boot, has started.
abbrev pub Running : List (Request × ℕ) → Type 0
Running = All (λ (q : Request × ℕ). 0 < q.1)

All-switch_times :
    (rs : List (Request × ℕ)) (s : Status) → Running rs → All (λ t. 0 < t) (switch_times rs s)
unfolding switch_times
All-switch_times [] s run = tt
All-switch_times ((r, now) ∷ rs) s run =
    let rest = All-switch_times rs (handle r now s).1 run.1 in ground (arith, rest, run.0)

Apart-SpacedFrom :
    (last : ℕ) (ts : List ℕ) → 0 < last → All (λ t. 0 < t) ts → SpacedFrom last ts → Apart last ts
Apart-SpacedFrom last [] pos a h = tt
Apart-SpacedFrom last (t ∷ ts) pos a (inl e, h) = absurd (omega arith)
Apart-SpacedFrom last (t ∷ ts) pos a (inr le, h) = (le, Apart-SpacedFrom t ts a.0 a.1 h)

-- However requests arrive after a switch of the relay, all at times after boot, every further
-- switch comes at least MIN_POWER_TOGGLE_MS after the one before it.
pub switch_times-Apart :
    (rs : List (Request × ℕ)) (s : Status)
    → 0 < s.last_power_toggle
    → Running rs
    → Apart s.last_power_toggle (switch_times rs s)
switch_times-Apart rs s pos run =
    Apart-SpacedFrom s.last_power_toggle _ pos (All-switch_times rs s run)
      (switch_times-SpacedFrom rs s)

-- The state that a request asks for.
unfoldable pub wanted : Request → Status → Bool
wanted power_on s = true
wanted power_off s = false
wanted power_toggle s = not s.power_on
wanted reset s = s.power_on

-- The level that a list of calls leaves on the relay's pin.
unfoldable pub relay_level : Bool → List PinCall → Bool
relay_level level [] = level
relay_level level (set_level sbc_power l ∷ cs) = relay_level l cs
relay_level level (c ∷ cs) = relay_level level cs

-- A change of the relay asked for within MIN_POWER_TOGGLE_MS of the last one.
abbrev pub TooSoon : Request → ℕ → Status → Type 0
TooSoon r now s =
    (wanted r s ≢ s.power_on)
    × (0 < s.last_power_toggle)
    × (now < s.last_power_toggle + min_power_toggle_ms * 1000)

-- A refusal changes nothing and touches no pin; a success leaves the relay and its record in the
-- state asked for.
abbrev pub Served : Request → ℕ → Status → Outcome → Type 0
Served r now s out =
    (TooSoon r now s × (out ≡ (invalid_state, s, [])))
    ⊎ ((¬ TooSoon r now s)
        × (out.0 ≡ ok)
        × (out.1.power_on ≡ wanted r s)
        × (relay_level s.power_on out.2 ≡ wanted r s))

power_set-Served :
    (on : Bool) (r : Request) (now : ℕ) (s : Status)
    → wanted r s ≡ on
    → Served r now s (power_set on now s)
unfolding power_set relay_level
power_set-Served on r now s w = elim (Bool-cases (same s.power_on on)) [
  | inl e ↦
      let kept : s.power_on ≡ on = ground arith in
      inr (λ soon. soon.0 (w ∙ sym kept), rw (e) refl, rw (e) (kept ∙ sym w), rw (e) (kept ∙ sym w))
  | inr e ↦
      let changed : on ≢ s.power_on = ground arith in
      elim (Bool-cases (too_fast now s)) [
        | inl fast ↦ inl ((λ p. changed (sym w ∙ p), ground arith, ground arith), rw (e, fast) refl)
        | inr slow ↦
            inr
              (λ soon. ground arith, rw (e, slow) refl, rw (e, slow) (sym w), rw (e, slow) (sym w))
      ]
]

-- Each request is refused exactly if it asks for a change too soon after the last one, and then
-- nothing changes and no pin is touched. Otherwise it succeeds, with the relay's pin and the
-- recorded state as it asks; a reset leaves both as they are.
pub handle-Served : (r : Request) (now : ℕ) (s : Status) → Served r now s (handle r now s)
unfolding handle wanted relay_level
handle-Served power_on now s = power_set-Served true power_on now s refl
handle-Served power_off now s = power_set-Served false power_off now s refl
handle-Served power_toggle now s = power_set-Served (not s.power_on) power_toggle now s refl
handle-Served reset now s = inr (λ soon. soon.0 refl, refl, refl, refl)
