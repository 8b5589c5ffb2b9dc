-- ===== src/Gpio.antt =====
-- main/gpio_control.c: the reset line and the power relay of the board. The GPIO driver is not
-- modelled: each operation lists the calls that it makes on the two pins, in order.
pub mod Relay
pub mod Tests
use esp32_web_terminal.Prelude.{
  ℕ, ◌-◌, ◌*◌, Bool, true, false, not, ◌&&◌, Option, none, some, List, [], ◌∷◌, ltb, if◌then◌else◌,
}

pub data Pin : Type 0 where
  sbc_reset sbc_power : Pin

pub data Direction : Type 0 where
  input output : Direction

-- A call of the driver, or of vTaskDelay.
pub data PinCall : Type 0 where
  configure : Pin → Direction → PinCall
  set_direction : Pin → Direction → PinCall
  set_level : Pin → Bool → PinCall
  delay_ms : ℕ → PinCall

abbrev pub reset_pulse_ms : ℕ
reset_pulse_ms = 100

abbrev pub min_power_toggle_ms : ℕ
min_power_toggle_ms = 2000

-- gpio_status_t; times are microseconds since boot.
pub record Status : Type 0 where
  pub power_on : Bool
  pub last_reset_time : ℕ
  pub last_power_toggle : ℕ

-- The esp_err_t values that the operations return.
pub data Reply : Type 0 where
  ok invalid_state : Reply

abbrev pub Outcome : Type 0
Outcome = Reply × Status × List PinCall

-- gpio_control_init with the results of its two gpio_config calls: ESP_ERROR_CHECK aborts on a
-- failure (`none`).
unfoldable pub init : Bool → Bool → Bool → Option Outcome
init power_on_default reset_configured power_configured =
    if reset_configured && power_configured
    then some (
      ok,
      record { power_on = power_on_default; last_reset_time = 0; last_power_toggle = 0 },
      configure sbc_reset input
          ∷ configure sbc_power output
          ∷ set_level sbc_power power_on_default
          ∷ [],
    )
    else none

-- gpio_sbc_reset, with the time that it reads after the pulse.
unfoldable pub sbc_reset_pulse : ℕ → Status → Outcome
sbc_reset_pulse now s = (
  ok,
  record s { last_reset_time = now },
  set_direction sbc_reset output
      ∷ set_level sbc_reset false
      ∷ delay_ms reset_pulse_ms
      ∷ set_direction sbc_reset input
      ∷ [],
)

abbrev same : Bool → Bool → Bool
same true b = b
same false b = not b

-- `last_power_toggle > 0 && (now - last_power_toggle) < MIN_POWER_TOGGLE_MS * 1000`. The
-- difference is signed in C; where it is negative both tests hold.
abbrev pub too_fast : ℕ → Status → Bool
too_fast now s =
    ltb 0 s.last_power_toggle && ltb (now - s.last_power_toggle) (min_power_toggle_ms * 1000)

unfoldable pub power_set : Bool → ℕ → Status → Outcome
power_set on now s =
    if same s.power_on on
    then (ok, s, [])
    else if too_fast now s
    then (invalid_state, s, [])
    else (ok, record s { power_on = on; last_power_toggle = now }, set_level sbc_power on ∷ [])

-- The requests of the web server, each with the time at which the operation reads the clock.
pub data Request : Type 0 where
  power_on power_off power_toggle reset : Request

-- gpio_sbc_power_on, gpio_sbc_power_off, gpio_sbc_power_toggle and gpio_sbc_reset.
unfoldable pub handle : Request → ℕ → Status → Outcome
unfolding power_set sbc_reset_pulse
handle power_on now s = power_set true now s
handle power_off now s = power_set false now s
handle power_toggle now s = power_set (not s.power_on) now s
handle reset now s = sbc_reset_pulse now s
