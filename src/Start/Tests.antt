-- ===== src/Start/Tests.antt =====
-- The theorems on the start of the device at concrete answers.
use esp32_web_terminal.Prelude.{
  refl, ℕ, zero, suc, ◌≡◌, true, false, none, [], ◌∷◌, List, codes, replicate,
}
use esp32_web_terminal.Config.Store.{not_found}
use esp32_web_terminal.Config.Tests.{digest, writes}
use esp32_web_terminal.Serial.{Reply, ok, failed}
use esp32_web_terminal.Start.Boot.{
  Environment, pending_verify, app_main, config_ready, auth_ready, pins_ready, wifi_ready,
  ports_ready, server_ready, https_ready, firmware_confirmed,
}
use esp32_web_terminal.Start.Boot.Confirm.{checks, confirmation, Follows, reached, app_main-Follows}
use esp32_web_terminal.Start.Receive.{
  Turn, reads, takes, traffic, queue_traffic, Implements, traffic-Implements,
}
use esp32_web_terminal.Ws.Ring.{empty_ring}
use esp32_web_terminal.Ws.Ring.Queue.{contents}
use esp32_web_terminal.Ws.Ring.Refine.{empty_ring-RingInv}

-- Two reads, a timeout, a frame that the HTTP task takes, and a read that is longer than a frame.
abbrev console : List Turn
console =
    reads (codes "U-Boot") true
    ∷ reads (codes " 2026") true
    ∷ reads [] true
    ∷ takes
    ∷ reads (replicate 300 46) false
    ∷ []

traffic-Implements_example :
    Implements
      (queue_traffic 0 console (contents empty_ring))
      empty_ring
      (traffic 0 console empty_ring)
traffic-Implements_example = traffic-Implements 0 console empty_ring empty_ring-RingInv

abbrev without_usb : ℕ → Reply
without_usb zero = ok
without_usb (suc n) = failed n

-- The first start of an updated board whose USB port is dead and that no network answers.
abbrev updated : Environment
updated = record {
  opened = not_found;
  draw = record { salt = replicate 16 7; allocated = true };
  reset_configured = true;
  power_configured = true;
  mac = record { fifth = 1; sixth = 2 };
  wifi_setup = record {
    netif_ready = true;
    loop_made = true;
    driver_ready = true;
    wifi_handled = true;
    got_ip_handled = true;
    got_ip6_handled = true;
  };
  wifi_answers = record {
    mode_set = true;
    ap_config_taken = true;
    sta_config_taken = true;
    started = true;
    connect_accepted = false;
    ap_address = none;
  };
  has_timer = true;
  inits = without_usb;
  starts = without_usb;
  s3 = true;
  mutex_made = true;
  certs_open = true;
  cert_allocated = true;
  key_allocated = true;
  cert_writes = record { cert_taken = true; key_taken = true };
  https_started = true;
  image = pending_verify;
}

app_main-Follows_example :
    Follows
      (app_main 2 digest writes (codes "crt") (codes "key") updated [] [])
      (checks updated)
      (confirmation updated.image)
app_main-Follows_example =
    app_main-Follows 2 digest writes (codes "crt") (codes "key") updated [] []

confirmed_without_usb :
    reached (checks updated) (confirmation updated.image)
    ≡ config_ready ∷ auth_ready ∷ pins_ready ∷ wifi_ready ∷ ports_ready ∷ server_ready ∷ https_ready
      ∷ firmware_confirmed ∷ []
unfolding reached
confirmed_without_usb = refl
