-- ===== src/Usb/Tests.antt =====
-- The theorem on the USB bridge at a short run.
use esp32_web_terminal.Prelude.{refl, true, some, [], ◌++◌}
use esp32_web_terminal.Usb.{
  Vendors, Bridge, usb_cdc_init, on_connected, publish, mark, connects, publishes, marks, Run,
  starts, goes_on,
}
use esp32_web_terminal.Usb.Handles.{idle, replay, BridgeInv}
use esp32_web_terminal.Usb.Reach.{Run-BridgeInv}

abbrev vendors : Vendors
vendors = record { ftdi_vid = 1027; ch34x_vid = 6790; cp210x_vid = 4292 }

abbrev started : Bridge
started = usb_cdc_init true true 9600

abbrev connected : Bridge
connected = (on_connected vendors 1027 (some 7) started).0

abbrev published : Bridge
published = (publish connected).0

plugged_in : Run vendors connected ([] ++ (on_connected vendors 1027 (some 7) started).1)
plugged_in = goes_on (starts true true 9600) (connects 1027 (some 7) refl refl)

Run-BridgeInv_example : BridgeInv (mark published).0 (
    replay
      ((([] ++ (on_connected vendors 1027 (some 7) started).1) ++ (publish connected).1)
        ++ (mark published).1)
      idle)
Run-BridgeInv_example =
    Run-BridgeInv vendors (mark published).0 _ (goes_on (goes_on plugged_in publishes) marks)
