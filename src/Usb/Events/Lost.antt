-- ===== src/Usb/Events/Lost.antt =====
-- The queue of usb_event_task (main/usb_cdc_bridge.c) when it is full.
use esp32_web_terminal.Prelude.{
  ℕ, ◌≡◌, refl, Bool, true, false, Option, none, some, List, [], ◌∷◌, leb, length, All,
}
use esp32_web_terminal.Usb.{Vendors, Bridge, on_connected, publish, mark}
use esp32_web_terminal.Usb.Events.{
  UsbEvent, connected, disconnected, queue_length, device_disconnected, handle_event, queue_send,
  receive_all,
}

abbrev pub is_connected : UsbEvent → Bool
is_connected (connected vid pid) = true
is_connected disconnected = false

on_connected_busy :
    (v : Vendors) (vid : ℕ) (handle : Option ℕ) (b : Bridge) (h : ℕ)
    → b.device ≡ some h
    → on_connected v vid handle b ≡ (b, [])
unfolding on_connected
on_connected_busy v vid handle b h e = rw (e)

publish_idle : (b : Bridge) → b.opening ≡ none → publish b ≡ (b, [])
unfolding publish
publish_idle b e = rw (e)

mark_idle : (b : Bridge) → b.marking ≡ none → mark b ≡ (b, [])
unfolding mark
mark_idle b e = rw (e)

receive_all_busy :
    (v : Vendors) (handles : ℕ → Option ℕ) (q : List UsbEvent) (b : Bridge) (h : ℕ)
    → All (λ e. is_connected e ≡ true) q
    → b.device ≡ some h
    → b.opening ≡ none
    → b.marking ≡ none
    → receive_all v handles q b ≡ (b, [])
unfolding receive_all
receive_all_busy v handles [] b h all is_open idle marked = refl
receive_all_busy v handles (connected vid pid ∷ q) b h all is_open idle marked = rw (
  on_connected_busy v vid (handles vid) b h is_open,
  publish_idle b idle,
  mark_idle b marked,
  receive_all_busy v handles q b h all.1 is_open idle marked,
)
receive_all_busy v handles (disconnected ∷ q) b h all is_open idle marked = absurd cc

-- While a device is open and five connections wait, the end of that device is lost: when all that
-- waits was received, the bridge still holds its handle, and made no call.
pub handle_event_lost :
    (v : Vendors) (handles : ℕ → Option ℕ) (q : List UsbEvent) (b : Bridge) (h : ℕ)
    → leb queue_length (length q) ≡ true
    → All (λ e. is_connected e ≡ true) q
    → b.device ≡ some h
    → b.opening ≡ none
    → b.marking ≡ none
    → receive_all v handles (handle_event device_disconnected q) b ≡ (b, [])
unfolding handle_event queue_send
handle_event_lost v handles q b h full all is_open idle marked =
    rw (full) (receive_all_busy v handles q b h all is_open idle marked)
