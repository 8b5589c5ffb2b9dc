-- ===== src/Usb.antt =====
-- main/usb_cdc_bridge.c: the device of the USB port, opened and closed by usb_event_task and used by
-- the httpd task. The USB host stack is not part of the source: each function lists the calls that
-- it makes of it, and takes their results as arguments.
pub mod Events
pub mod Handles
pub mod Reach
pub mod Tests
use esp32_web_terminal.Prelude.{
  ℕ, ◌≡◌, Bool, true, false, Option, none, some, List, [], ◌∷◌, ◌++◌, Bytes, ◌==◌, if◌then◌else◌,
}

-- The errors that the bridge tells apart.
pub data Reply : Type 0 where
  ok not_supported invalid_state other_error : Reply

pub data Driver : Type 0 where
  ftdi ch34x cp210x cdc_acm : Driver

-- The vendor numbers of the drivers' headers.
pub record Vendors : Type 0 where
  pub ftdi_vid : ℕ
  pub ch34x_vid : ℕ
  pub cp210x_vid : ℕ

-- The switch of open_device.
abbrev pub driver_of : Vendors → ℕ → Driver
driver_of v vid =
    if vid == v.ftdi_vid
    then ftdi
    else if vid == v.ch34x_vid
    then ch34x
    else if vid == v.cp210x_vid
    then cp210x
    else cdc_acm

-- The calls on a device handle, and the events told to the WebSocket clients.
pub data Call : Type 0 where
  open_with : Driver → ℕ → Call
  line_coding : ℕ → ℕ → Call
  control_lines : ℕ → Call
  close : ℕ → Call
  transmit : ℕ → Bytes → Call
  tell_connected : Bool → Call

-- The static variables. `opening` is usb_event_task's own `dev`, before it is published; `marking`
-- is what it has still to write into the port's `available`, which it does outside the mutex;
-- `setting` is the argument of usb_cdc_set_baud_rate until that has had the mutex. `stale` records
-- history: a rate was set while a device was being opened, and none was asked of it since.
pub record Bridge : Type 0 where
  pub ready : Bool
  pub baud_rate : ℕ
  pub device : Option ℕ
  pub opening : Option ℕ
  pub available : Bool
  pub marking : Option Bool
  pub setting : Option ℕ
  pub stale : Bool

-- usb_cdc_init, which may fail to make the queue or the mutex.
abbrev pub usb_cdc_init : Bool → Bool → ℕ → Bridge
usb_cdc_init queue_made mutex_made rate = record {
  ready = if queue_made then mutex_made else false;
  baud_rate = rate;
  device = none;
  opening = none;
  available = false;
  marking = none;
  setting = none;
  stale = false;
}

-- USB_EVT_CONNECTED up to the mutex; `handle` is what the driver's open gives.
unfoldable pub on_connected : Vendors → ℕ → Option ℕ → Bridge → Bridge × List Call
on_connected v vid handle b = elim b.device [
  | some h ↦ (b, [])
  | none ↦ elim handle [
    | none ↦ (b, [])
    | some h ↦ (
      record b { opening = some h; stale = false },
      open_with (driver_of v vid) h ∷ line_coding h b.baud_rate ∷ control_lines h ∷ [],
    )
  ]
]

-- The section of USB_EVT_CONNECTED under the mutex: the device is published.
unfoldable pub publish : Bridge → Bridge × List Call
publish b = elim b.opening [
  | none ↦ (b, [])
  | some h ↦ (record b { device = some h; opening = none; marking = some true }, [])
]

-- The end of both events: the port is made available or not, and the clients are told.
unfoldable pub mark : Bridge → Bridge × List Call
mark b = elim b.marking [
  | none ↦ (b, [])
  | some on ↦ (record b { available = on; marking = none }, tell_connected on ∷ [])
]

-- The section of USB_EVT_DISCONNECTED under the mutex.
unfoldable pub on_disconnected : Bridge → Bridge × List Call
on_disconnected b = elim b.device [
  | none ↦ (record b { marking = some false }, [])
  | some h ↦ (record b { device = none; marking = some false }, close h ∷ [])
]

-- usb_cdc_send, with the driver's answer.
unfoldable pub usb_cdc_send : Reply → Bytes → Bridge → Reply × List Call
usb_cdc_send answer bytes b =
    if b.ready
    then elim b.device [ none ↦ (invalid_state, []) | some h ↦ (answer, transmit h bytes ∷ []) ]
    else (invalid_state, [])

-- `err != ESP_OK && err != ESP_ERR_NOT_SUPPORTED`
abbrev pub tolerated : Reply → Reply
tolerated ok = ok
tolerated not_supported = ok
tolerated invalid_state = invalid_state
tolerated other_error = other_error

abbrev pub is_some : Option ℕ → Bool
is_some none = false
is_some (some h) = true

-- usb_cdc_set_baud_rate before it takes the mutex.
unfoldable pub store_rate : ℕ → Bridge → Bridge
store_rate rate b = if b.ready then record b { baud_rate = rate; setting = some rate } else b

-- usb_cdc_set_baud_rate from the mutex on, with the driver's answer.
unfoldable pub apply_rate : Reply → Bridge → Reply × Bridge × List Call
apply_rate answer b = elim b.setting [
  | none ↦ (invalid_state, b, [])
  | some rate ↦ elim b.device [
    | some h ↦
        (tolerated answer, record b { setting = none; stale = false }, line_coding h rate ∷ [])
    | none ↦ (ok, record b { setting = none; stale = is_some b.opening }, [])
  ]
]

-- usb_event_task handles one event after another, each to its end; usb_cdc_send and the
-- two halves of usb_cdc_set_baud_rate run on the httpd task, between any two of its steps.
pub data Step (v : Vendors) (b : Bridge) : Bridge × List Call → Type 0 where
  connects :
      (vid : ℕ) (handle : Option ℕ)
      → b.opening ≡ none
      → b.marking ≡ none
      → Step v b (on_connected v vid handle b)
  publishes : Step v b (publish b)
  disconnects : b.opening ≡ none → b.marking ≡ none → Step v b (on_disconnected b)
  marks : Step v b (mark b)
  sends : (answer : Reply) (bytes : Bytes) → Step v b (b, (usb_cdc_send answer bytes b).1)
  stores_rate : (rate : ℕ) → b.setting ≡ none → Step v b (store_rate rate b, [])
  applies_rate : (answer : Reply) → Step v b ((apply_rate answer b).1, (apply_rate answer b).2)

-- The bridges that a start and some steps reach, with the calls made so far.
pub data Run (v : Vendors) : Bridge → List Call → Type 0 where
  starts :
      (queue_made mutex_made : Bool) (rate : ℕ) → Run v (usb_cdc_init queue_made mutex_made rate) []
  goes_on :
      {b b' : Bridge} {calls more : List Call}
      → Run v b calls
      → Step v b (b', more)
      → Run v b' (calls ++ more)
