-- ===== src/Usb/Handles.antt =====
-- The handle that the USB host stack has open, as the calls of the bridge leave it.
use esp32_web_terminal.Prelude.{
  ℕ, ◌≡◌, refl, ◌⊎◌, Bool, true, Option, none, some, List, [], ◌∷◌, ◌++◌, arith, ◌==◌,
  if◌then◌else◌, subst,
}
use esp32_web_terminal.Usb.{
  Call, open_with, line_coding, control_lines, close, transmit, tell_connected, Bridge, is_some,
}

-- What the host stack has: no open handle, one with the rate asked of it last, or none that can be
-- told of, after a call on a handle that was not open.
pub data HostStack : Type 0 where
  idle : HostStack
  in_use : ℕ → ℕ → HostStack
  misused : HostStack

-- A call on an open handle, and the host after it.
abbrev pub on_handle : ℕ → HostStack → HostStack → HostStack
on_handle h (in_use g r) after = if h == g then after else misused
on_handle h idle after = misused
on_handle h misused after = misused

abbrev pub opened : ℕ → HostStack → HostStack
opened h idle = in_use h 0
opened h (in_use g r) = misused
opened h misused = misused

unfoldable pub replay_call : Call → HostStack → HostStack
replay_call (open_with d h) s = opened h s
replay_call (line_coding h rate) s = on_handle h s (in_use h rate)
replay_call (control_lines h) s = on_handle h s s
replay_call (close h) s = on_handle h s idle
replay_call (transmit h bytes) s = on_handle h s s
replay_call (tell_connected on) s = s

unfoldable pub replay : List Call → HostStack → HostStack
unfolding replay_call
replay [] s = s
replay (c ∷ cs) s = replay cs (replay_call c s)

pub replay-append :
    (cs ds : List Call) (s : HostStack) → replay (cs ++ ds) s ≡ replay ds (replay cs s)
unfolding replay
replay-append [] ds s = refl
replay-append (c ∷ cs) ds s = replay-append cs ds (replay_call c s)

-- The rate asked of a device last is the bridge's, unless one was set during its opening, or one is
-- being set.
abbrev pub Fresh : ℕ → Bridge → Type 0
Fresh r b = (b.stale ≡ true) ⊎ ((is_some b.setting ≡ true) ⊎ (r ≡ b.baud_rate))

-- The host has the handle that the bridge holds, published or not, and no other.
abbrev pub Holds : Option ℕ → Option ℕ → Bridge → HostStack → Type 0
Holds none none b s = s ≡ idle
Holds (some h) none b s = (r : ℕ) × (s ≡ in_use h r) × Fresh r b
Holds none (some h) b s = (r : ℕ) × (s ≡ in_use h r) × Fresh r b
Holds (some h) (some g) b s = ⊥

-- The port is available if a device is published, or is to be made so; and so for not available.
abbrev pub Marked : Option Bool → Bool → Option ℕ → Type 0
Marked none available device = available ≡ is_some device
Marked (some on) available device = on ≡ is_some device

-- The rate that is being set is the bridge's.
abbrev pub RateKept : Option ℕ → ℕ → Type 0
RateKept none baud = Unit {0}
RateKept (some rate) baud = rate ≡ baud

abbrev pub BridgeInv : Bridge → HostStack → Type 0
BridgeInv b s =
    Holds b.device b.opening b s
    × Marked b.marking b.available b.device
    × RateKept b.setting b.baud_rate

-- After some more calls.
unfoldable pub Kept : HostStack → Bridge × List Call → Type 0
Kept s (b', more) = BridgeInv b' (replay more s)

pub same_handle : (h r : ℕ) (after : HostStack) → on_handle h (in_use h r) after ≡ after
same_handle h r after = ground arith

module _ (b : Bridge) (s : HostStack) (i : BridgeInv b s) where
  pub none_held : b.device ≡ none → b.opening ≡ none → s ≡ idle
  none_held e o = subst (λ p. Holds none p b s) o (subst (λ p. Holds p b.opening b s) e i.0)

  pub held : (h : ℕ) → b.device ≡ some h → Holds (some h) b.opening b s
  held h e = subst (λ p. Holds p b.opening b s) e i.0

  pub only_held :
      (h : ℕ) (o : Option ℕ)
      → b.opening ≡ o
      → b.device ≡ some h
      → (o ≡ none) × Holds (some h) none b s
  only_held h none eo e = (refl, subst (λ p. Holds (some h) p b s) eo (held h e))
  only_held h (some g) eo e = absurd (subst (λ p. Holds (some h) p b s) eo (held h e))

  pub only_opening :
      (h : ℕ) (d : Option ℕ)
      → b.device ≡ d
      → b.opening ≡ some h
      → (d ≡ none) × Holds none (some h) b s
  only_opening h none ed e =
      (refl, subst (λ p. Holds none p b s) e (subst (λ p. Holds p b.opening b s) ed i.0))
  only_opening h (some g) ed e = absurd (subst (λ p. Holds (some g) p b s) e (held g ed))
