-- ===== src/Gpio/Tests.antt =====
-- The theorems on the relay at concrete requests.
use esp32_web_terminal.Prelude.{ℕ, false, List, [], ◌∷◌, arith}
use esp32_web_terminal.Gpio.{Status, Request, power_on, power_off, handle}
use esp32_web_terminal.Gpio.Relay.{Served, handle-Served, switch_times, Apart, switch_times-Apart}

abbrev switched_at_1s : Status
switched_at_1s = record { power_on = false; last_reset_time = 0; last_power_toggle = 1000000 }

abbrev requests : List (Request × ℕ)
requests = (power_on, 2000000) ∷ (power_on, 3000000) ∷ (power_off, 5000000) ∷ []

handle-Served_example :
    Served power_on 2000000 switched_at_1s (handle power_on 2000000 switched_at_1s)
handle-Served_example = handle-Served power_on 2000000 switched_at_1s

switch_times-Apart_example : Apart 1000000 (switch_times requests switched_at_1s)
switch_times-Apart_example =
    switch_times-Apart requests switched_at_1s (omega arith)
      (omega arith, (omega arith, (omega arith, tt)))
