-- ===== src/Serial/Dispatch.antt =====
-- The start of the ports, and the dispatch to a port's driver.
use esp32_web_terminal.Prelude.{
  ℕ, zero, suc, ◌≡◌, ◌↔◌, refl, sym, ◌∙◌, Bool, true, false, Option, none, some, List, [], ◌∷◌,
  arith, Bytes, length, get_elem?, get_or, leb, Bool-cases, inl, inr, ℤ, pos, negsuc,
}
use esp32_web_terminal.Serial.{
  Kind, uart, usb_cdc, Reply, ok, invalid_arg, failed, Port, Call, call_send, call_set_baud,
  bring_up, next_round, init_loop, init_all, port_get, index, port_send, port_set_baud_rate,
}

-- The USB port never makes the loop fail.
usb_optional : (r rest : Reply × List Call) → rest.0 ≡ ok → (next_round usb_cdc r rest).0 ≡ ok
unfolding next_round
usb_optional (ok, calls) rest e = e
usb_optional (invalid_arg, calls) rest e = e
usb_optional (failed n, calls) rest e = e

-- The UART decides, if the rest succeeds.
uart_decides : (r rest : Reply × List Call) → rest.0 ≡ ok → (next_round uart r rest).0 ≡ r.0
unfolding next_round
uart_decides (ok, calls) rest e = e
uart_decides (invalid_arg, calls) rest e = refl
uart_decides (failed n, calls) rest e = refl

bring_up-ok :
    (init_answer start_answer : Reply) (k : Kind) (i baud : ℕ)
    → ((bring_up init_answer start_answer k i baud).0 ≡ ok)
      ↔ ((init_answer ≡ ok) × (start_answer ≡ ok))
unfolding bring_up
bring_up-ok ok start_answer k i baud = (λ e. (refl, e), λ e. e.1)
bring_up-ok invalid_arg start_answer k i baud = (λ e. absurd cc, λ e. absurd cc)
bring_up-ok (failed n) start_answer k i baud = (λ e. absurd cc, λ e. absurd cc)

module _ (inits starts : ℕ → Reply) (bauds : List ℕ) where
  pub init_all-uart :
      (s3 : Bool)
      → (init_all inits starts bauds s3).0
        ≡ (bring_up (inits 0) (starts 0) uart 0 (get_or bauds 0 0)).0
  unfolding init_all init_loop
  init_all-uart true = uart_decides _ _ (usb_optional _ (ok, []) refl)
  init_all-uart false = uart_decides _ (ok, []) refl

  -- serial_port_init_all succeeds exactly if the UART is initialised and started: a USB port that
  -- fails, or is not there, does not keep the device from starting.
  pub init_all_iff :
      (s3 : Bool) → ((init_all inits starts bauds s3).0 ≡ ok) ↔ ((inits 0 ≡ ok) × (starts 0 ≡ ok))
  init_all_iff s3 =
      let (to, from) = bring_up-ok (inits 0) (starts 0) uart 0 (get_or bauds 0 0) in
      (λ e. to (sym (init_all-uart s3) ∙ e), λ e. init_all-uart s3 ∙ from e)

-- The outcome for a port, or for none.
unfoldable pub Dispatched : Reply → ℤ → Option Port → (Kind → ℕ → Call) → Reply × List Call → Type 0
Dispatched answer i none call out = out ≡ (invalid_arg, [])
Dispatched answer i (some p) call out = out ≡ (answer, call p.kind (index i) ∷ [])

get_elem?-get_or :
    (ps : List Port) (i : ℕ) (d : Port)
    → leb (length ps) i ≡ false
    → get_elem? ps i ≡ some (get_or ps i d)
get_elem?-get_or [] i d lt = absurd (ground arith)
get_elem?-get_or (p ∷ ps) zero d lt = refl
get_elem?-get_or (p ∷ ps) (suc i) d lt = get_elem?-get_or ps i d (ground arith)

abbrev no_port : Port
no_port = record { kind = uart; available = false }

port_send-Dispatched :
    (answer : Reply) (i : ℤ) (bytes : Bytes) (ps : List Port)
    → Dispatched answer i (port_get i ps) (λ k n. call_send k n bytes) (port_send answer i bytes ps)
unfolding port_get port_send Dispatched
port_send-Dispatched answer (negsuc n) bytes ps = refl
port_send-Dispatched answer (pos i) bytes ps = elim (Bool-cases (leb (length ps) i)) [
  | inl out ↦ rw (out) refl
  | inr lt ↦ rw (lt, get_elem?-get_or ps i no_port lt) refl
]

port_set_baud_rate-Dispatched :
    (answer : Reply) (i : ℤ) (rate : ℕ) (ps : List Port)
    → Dispatched answer i
        (port_get i ps)
        (λ k n. call_set_baud k n rate)
        (port_set_baud_rate answer i rate ps)
unfolding port_get port_set_baud_rate Dispatched
port_set_baud_rate-Dispatched answer (negsuc n) rate ps = refl
port_set_baud_rate-Dispatched answer (pos i) rate ps = elim (Bool-cases (leb (length ps) i)) [
  | inl out ↦ rw (out) refl
  | inr lt ↦ rw (lt, get_elem?-get_or ps i no_port lt) refl
]

-- serial_port_send and serial_port_set_baud_rate refuse a number that serial_port_get has no port
-- for, without a call; any other number gets one call of its port's driver, and its answer.
pub dispatch-Dispatched :
    (answer : Reply) (i : ℤ) (bytes : Bytes) (rate : ℕ) (ps : List Port)
    → Dispatched answer i (port_get i ps) (λ k n. call_send k n bytes) (port_send answer i bytes ps)
      × Dispatched answer i
          (port_get i ps)
          (λ k n. call_set_baud k n rate)
          (port_set_baud_rate answer i rate ps)
dispatch-Dispatched answer i bytes rate ps =
    (port_send-Dispatched answer i bytes ps, port_set_baud_rate-Dispatched answer i rate ps)
