-- ===== src/Uart.antt =====
-- main/uart_bridge.c: the bridge to the UART. The calls of the UART driver and of FreeRTOS are
-- listed, and what they answer is an argument.
use esp32_web_terminal.Prelude.{
  ℕ, ◌*◌, Bool, true, false, ◌&&◌, Option, none, some, List, [], ◌∷◌, Bytes, ltb, length, take,
  if◌then◌else◌, ℤ, pos, negsuc,
}
use esp32_web_terminal.Serial.{Reply, ok, failed, Callback, rx_notify}

-- UART_BRIDGE_BUF_SIZE
abbrev pub buf_size : ℕ
buf_size = 1024

-- sizeof(buf) of uart_rx_task
abbrev pub rx_chunk : ℕ
rx_chunk = 256

pub data Call : Type 0 where
  driver_install : ℕ → ℕ → Call
  param_config : ℕ → Call
  set_pin : ℕ → ℕ → Call
  set_baudrate : ℕ → Call
  write_bytes : Bytes → Call
  create_task : ℕ → Call

-- uart_bridge_init for the pins of the target, with the results of its three calls, each under
-- ESP_ERROR_CHECK, which aborts on a failure (`none`).
unfoldable pub uart_bridge_init : Bool → Bool → Bool → ℕ → ℕ → ℕ → Option (Reply × List Call)
uart_bridge_init installed configured pinned tx_pin rx_pin baud =
    if installed && (configured && pinned)
    then some (
      ok,
      driver_install (buf_size * 2) buf_size ∷ param_config baud ∷ set_pin tx_pin rx_pin ∷ [],
    )
    else none

-- uart_bridge_set_baud_rate passes on what the driver answers.
abbrev pub uart_bridge_set_baud_rate : Reply → ℕ → Reply × List Call
uart_bridge_set_baud_rate answer baud = (answer, set_baudrate baud ∷ [])

-- uart_bridge_send; `written` is what uart_write_bytes returns, and ESP_FAIL is -1.
unfoldable pub uart_bridge_send : ℤ → Bytes → Reply × List Call
uart_bridge_send (pos n) bytes = (ok, write_bytes bytes ∷ [])
uart_bridge_send (negsuc n) bytes = (failed 1, write_bytes bytes ∷ [])

-- uart_bridge_start; `running` is whether s_rx_task_handle is set, before and after.
unfoldable pub uart_bridge_start : Bool → ℕ → Bool → (Reply × Bool) × List Call
uart_bridge_start created i running =
    if running
    then ((ok, true), [])
    else if created
    then ((ok, true), create_task i ∷ [])
    else ((failed 1, false), create_task i ∷ [])

-- One round of uart_rx_task, with what uart_read_bytes puts into the buffer: nothing where it times
-- out or fails.
unfoldable pub uart_rx_round : {W : Type 0} → Callback W → ℕ → Bytes → W → W
uart_rx_round cb i bytes w =
    let got = take rx_chunk bytes in if ltb 0 (length got) then rx_notify cb i got w else w
