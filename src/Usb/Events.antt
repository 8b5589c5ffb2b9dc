-- ===== src/Usb/Events.antt =====
-- main/usb_cdc_bridge.c: the callbacks of the USB host, the queue through which usb_event_task gets
-- its events, and the start of the tasks.
pub mod Lost
use esp32_web_terminal.Prelude.{
  ℕ, ◌≡◌, refl, sym, ◌∙◌, Bool, true, false, ◌&&◌, Option, none, some, List, [], ◌∷◌, ◌++◌, arith,
  Bytes, leb, length, if◌then◌else◌, All, ℤ, pos, negsuc,
}
use esp32_web_terminal.Serial.{Callback, rx_notify}
use esp32_web_terminal.Usb.{Vendors, Bridge, Call, on_connected, publish, mark, on_disconnected}

-- usb_event_t, with the vendor and the product of a new device.
pub data UsbEvent : Type 0 where
  connected : ℕ → ℕ → UsbEvent
  disconnected : UsbEvent

-- The length that usb_cdc_init gives the queue.
abbrev pub queue_length : ℕ
queue_length = 5

-- xQueueSend without a wait: an event is lost if the queue is full.
unfoldable pub queue_send : UsbEvent → List UsbEvent → List UsbEvent
queue_send e q = if leb queue_length (length q) then q else q ++ (e ∷ [])

-- cdc_acm_host_dev_event_data_t, by its type.
pub data HostEvent : Type 0 where
  host_error serial_state : ℕ → HostEvent
  device_disconnected other_event : HostEvent

unfoldable pub handle_event : HostEvent → List UsbEvent → List UsbEvent
unfolding queue_send
handle_event (host_error e) q = q
handle_event (serial_state v) q = q
handle_event device_disconnected q = queue_send disconnected q
handle_event other_event q = q

-- new_dev_cb, with the vendor and the product of the device's descriptor, if it can be read.
unfoldable pub new_dev_cb : Option (ℕ × ℕ) → List UsbEvent → List UsbEvent
unfolding queue_send
new_dev_cb none q = q
new_dev_cb (some (vid, pid)) q = queue_send (connected vid pid) q

-- handle_rx; s_port_index is -1 before usb_cdc_init.
unfoldable pub handle_rx : {W : Type 0} → Callback W → ℤ → Bytes → W → W
handle_rx cb (pos i) bytes w = rx_notify cb i bytes w
handle_rx cb (negsuc n) bytes w = w

-- usb_lib_task: whether it installs both drivers and tells usb_cdc_start so.
abbrev pub usb_lib_task : Bool → Bool → Bool
usb_lib_task host_installed driver_installed = host_installed && driver_installed

pub data Task : Type 0 where
  usb_lib usb_evt : Task

-- usb_cdc_start, with what xTaskCreate answers for its two tasks, and whether the first one tells it
-- in time that the drivers are installed: whether it returns ESP_OK, and the tasks that run.
unfoldable pub usb_cdc_start : Bool → Bool → Bool → Bool × List Task
usb_cdc_start lib_created told evt_created =
    if lib_created
    then if told
      then if evt_created then (true, usb_lib ∷ usb_evt ∷ []) else (false, usb_lib ∷ [])
      else (false, usb_lib ∷ [])
    else (false, [])

-- usb_event_task takes the events that wait, one after another; `handles` is what the driver's open
-- gives for each.
unfoldable pub receive_all : Vendors → (ℕ → Option ℕ) → List UsbEvent → Bridge → Bridge × List Call
receive_all v handles [] b = (b, [])
receive_all v handles (connected vid pid ∷ q) b =
    let (b₁, calls) = on_connected v vid (handles vid) b in
    let (b₂, more) = publish b₁ in
    let (b₃, marks) = mark b₂ in
    let (b₄, rest) = receive_all v handles q b₃ in (b₄, calls ++ (more ++ (marks ++ rest)))
receive_all v handles (disconnected ∷ q) b =
    let (b₁, calls) = on_disconnected b in
    let (b₂, marks) = mark b₁ in
    let (b₃, rest) = receive_all v handles q b₂ in (b₃, calls ++ (marks ++ rest))
