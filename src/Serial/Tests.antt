-- ===== src/Serial/Tests.antt =====
-- The serial ports at concrete answers of their drivers.
use esp32_web_terminal.Prelude.{ℕ, zero, suc, ◌≡◌, refl, true, []}
use esp32_web_terminal.Serial.{Reply, ok, failed, init_all, init_loop, bring_up, next_round}

abbrev only_uart : ℕ → Reply
only_uart zero = ok
only_uart (suc n) = failed n

-- The device starts without its USB port.
without_usb : (init_all only_uart only_uart [] true).0 ≡ ok
unfolding init_all init_loop bring_up next_round
without_usb = refl
