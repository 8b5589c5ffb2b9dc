-- ===== src/Serial.antt =====
-- main/serial_port.c: the table of serial ports and the guards of its operations. The operations of
-- a port's driver are listed as calls, and what they answer is an argument. The port numbers of the
-- callers are C ints.
pub mod Dispatch
pub mod Tests
use esp32_web_terminal.Prelude.{
  ℕ, zero, suc, Bool, true, false, Option, none, some, List, [], ◌∷◌, ◌++◌, Bytes, length,
  get_elem?, get_or, leb, if◌then◌else◌, ℤ, pos, negsuc,
}

-- serial_type_t
pub data Kind : Type 0 where
  uart usb_cdc : Kind

pub data Reply : Type 0 where
  ok invalid_arg : Reply
  failed : ℕ → Reply

-- serial_port_t, without its function pointers: they are those of its kind.
pub record Port : Type 0 where
  pub kind : Kind
  pub available : Bool

-- The calls through a port's function pointers.
pub data Call : Type 0 where
  call_init : Kind → ℕ → ℕ → Call
  call_start : Kind → ℕ → Call
  call_send : Kind → ℕ → Bytes → Call
  call_set_baud : Kind → ℕ → ℕ → Call

-- s_ports up to s_port_count, on an ESP32-S3 and on the other targets.
abbrev pub ports_of : Bool → List Port
ports_of true =
    record { kind = uart; available = true } ∷ record { kind = usb_cdc; available = false } ∷ []
ports_of false = record { kind = uart; available = true } ∷ []

-- `type == SERIAL_TYPE_USB_CDC`
abbrev pub optional : Kind → Bool
optional uart = false
optional usb_cdc = true

-- One round of serial_port_init_all, with what the driver's init and start answer: the error it
-- ends with, and the calls made.
unfoldable pub bring_up : Reply → Reply → Kind → ℕ → ℕ → Reply × List Call
bring_up ok start_answer k i baud = (start_answer, call_init k i baud ∷ call_start k i ∷ [])
bring_up invalid_arg start_answer k i baud = (invalid_arg, call_init k i baud ∷ [])
bring_up (failed e) start_answer k i baud = (failed e, call_init k i baud ∷ [])

-- How the loop goes on after a round: with the other ports, or out of serial_port_init_all.
unfoldable pub next_round : Kind → Reply × List Call → Reply × List Call → Reply × List Call
next_round k (ok, calls) (r, more) = (r, calls ++ more)
next_round k (invalid_arg, calls) (r, more) =
    if optional k then (r, calls ++ more) else (invalid_arg, calls)
next_round k (failed e, calls) (r, more) =
    if optional k then (r, calls ++ more) else (failed e, calls)

-- The loop of serial_port_init_all from port `i` on.
unfoldable pub init_loop : (ℕ → Reply) → (ℕ → Reply) → List ℕ → ℕ → List Port → Reply × List Call
unfolding bring_up next_round
init_loop inits starts bauds i [] = (ok, [])
init_loop inits starts bauds i (p ∷ ps) =
    next_round p.kind (bring_up (inits i) (starts i) p.kind i (get_or bauds i 0))
      (init_loop inits starts bauds (suc i) ps)

unfoldable pub init_all : (ℕ → Reply) → (ℕ → Reply) → List ℕ → Bool → Reply × List Call
unfolding init_loop
init_all inits starts bauds s3 = init_loop inits starts bauds 0 (ports_of s3)

-- s_rx_cb with its context, for callbacks that work on a state; none where it is NULL.
abbrev pub Callback : Type 0 → Type 0
Callback W = Option (ℕ → Bytes → W → W)

abbrev pub rx_notify : {W : Type 0} → Callback W → ℕ → Bytes → W → W
rx_notify none i bytes w = w
rx_notify (some cb) i bytes w = cb i bytes w

-- serial_port_get: NULL out of range.
unfoldable pub port_get : ℤ → List Port → Option Port
port_get (negsuc n) ps = none
port_get (pos i) ps = if leb (length ps) i then none else get_elem? ps i

abbrev pub index : ℤ → ℕ
index (pos i) = i
index (negsuc n) = 0

-- serial_port_send and serial_port_set_baud_rate, with the driver's answer.
unfoldable pub port_send : Reply → ℤ → Bytes → List Port → Reply × List Call
port_send answer (negsuc n) bytes ps = (invalid_arg, [])
port_send answer (pos i) bytes ps = if leb (length ps) i then (invalid_arg, []) else (
  answer,
  call_send (get_or ps i (record { kind = uart; available = false })).kind i bytes ∷ [],
)

unfoldable pub port_set_baud_rate : Reply → ℤ → ℕ → List Port → Reply × List Call
port_set_baud_rate answer (negsuc n) rate ps = (invalid_arg, [])
port_set_baud_rate answer (pos i) rate ps = if leb (length ps) i then (invalid_arg, []) else (
  answer,
  call_set_baud (get_or ps i (record { kind = uart; available = false })).kind i rate ∷ [],
)
