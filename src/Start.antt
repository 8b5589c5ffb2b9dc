-- ===== src/Start.antt =====
-- main/main.c: what app_main starts, in order, and the callback that joins the serial ports to the
-- WebSocket clients.
pub mod Boot
pub mod Receive
pub mod Tests
use esp32_web_terminal.Prelude.{ℕ, Bool, Option, some, Bytes}
use esp32_web_terminal.Serial.{Callback}
use esp32_web_terminal.Ws.Ring.{Ring, port, enqueue}

-- serial_to_ws_callback: web_server_ws_broadcast, which is ws_enqueue. `running` is whether the
-- server was started, and `queued n` what the n-th httpd_queue_work answers.
unfoldable pub serial_to_ws_callback : Bool → (ℕ → Bool) → ℕ → Bytes → Ring → Ring
serial_to_ws_callback running queued i bytes r = enqueue running queued (port i) bytes r

-- serial_port_set_rx_callback in app_main.
abbrev pub rx_callback : Bool → (ℕ → Bool) → Callback Ring
rx_callback running queued = some (serial_to_ws_callback running queued)
