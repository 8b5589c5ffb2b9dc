-- ===== src/Wifi/Tests.antt =====
-- The theorems on the Wi-Fi manager at concrete names, scans and runs.
use esp32_web_terminal.Prelude.{
  ◌-◌, ◌≤◌, ◌≡◌, refl, Bool, true, false, Option, none, some, List, [], ◌∷◌, arith, Bytes, codes,
  length, take, pos, negsuc,
}
use esp32_web_terminal.Config.Store.{Config, blank_config}
use esp32_web_terminal.Wifi.{
  Mac, ap_config, build_ap_ssid, sta_disconnected, got_ip, event_handler, on_got_ip,
  on_disconnected, Answers, ok, Wifi, Call,
}
use esp32_web_terminal.Config.Tests.{digest, writes}
use esp32_web_terminal.Wifi.Manage.{Setup, init, blank_wifi, connect_sta, begin_connect}
use esp32_web_terminal.Wifi.Hostname.{sanitize_hostname}
use esp32_web_terminal.Wifi.Hostname.Label.{IsHostLabel, sanitize_hostname-IsHostLabel}
use esp32_web_terminal.Wifi.Names.{ap_name, ap_config_uncut}
use esp32_web_terminal.Wifi.Scan.{ApRecord, dedupe, max_results}
use esp32_web_terminal.Wifi.Scan.Unique.{strength, best, strength-scan, Distinct, scan-Distinct}
use esp32_web_terminal.Wifi.Reach.{
  World, WorldInv, here, next, event, init-WorldInv, after_calls, powered_on, after_event,
  connect_sta-WorldInv, after_connect, connects, sets_mode,
}

sanitized : sanitize_hostname (codes "_My board.2.") 33 ≡ codes "My-board-2"
unfolding sanitize_hostname
sanitized = refl

-- A hyphen of the name is dropped.
hyphen_dropped : sanitize_hostname (codes "my-board") 33 ≡ codes "myboard"
unfolding sanitize_hostname
hyphen_dropped = refl

sanitize_hostname-IsHostLabel_example : IsHostLabel 32 (sanitize_hostname (codes "my board") 33)
sanitize_hostname-IsHostLabel_example = sanitize_hostname-IsHostLabel (codes "my board") 33

abbrev seen : List ApRecord
seen =
    record { ssid = codes "lab"; rssi = negsuc 69; is_open = false }
    ∷ record { ssid = []; rssi = negsuc 29; is_open = true }
    ∷ record { ssid = codes "lab"; rssi = negsuc 39; is_open = false }
    ∷ []

strength-scan_example : strength (codes "lab") (dedupe seen []) ≡ best (codes "lab") seen
strength-scan_example =
    strength-scan (codes "lab") seen (λ e. cc) (omega arith, (omega arith, (omega arith, tt)))

lab_at_40 : strength (codes "lab") (dedupe seen []) ≡ some (negsuc 39)
unfolding strength dedupe esp32_web_terminal.Prelude.Text.str_eq
lab_at_40 = refl

scan-Distinct_example :
    Distinct (dedupe (take max_results seen) [])
    × (length (dedupe (take max_results seen) []) ≤ max_results)
scan-Distinct_example = scan-Distinct seen (omega arith, (omega arith, (omega arith, tt)))

abbrev mac : Mac
mac = record { fifth = 0xA1; sixth = 0x0F }

abbrev board : Bytes
board = codes "esp32-terminal"

ap_config_uncut_example :
    ((ap_config (build_ap_ssid mac 33 board) []).ssid ≡ ap_name mac board)
    × ((ap_config (build_ap_ssid mac 33 board) []).ssid_len ≡ length (ap_name mac board))
    × ((ap_config (build_ap_ssid mac 33 board) []).ssid_len ≤ 32)
ap_config_uncut_example = ap_config_uncut mac board []

abbrev network : Config
network = record (blank_config 2) { sta_ssid = codes "lab"; ap_ssid = board }

abbrev answers : Answers
answers = record {
  mode_set = true;
  ap_config_taken = true;
  sta_config_taken = true;
  started = true;
  connect_accepted = true;
  ap_address = some (codes "192.168.4.1");
}

abbrev set_up : Setup
set_up = record {
  netif_ready = true;
  loop_made = true;
  driver_ready = true;
  wifi_handled = true;
  got_ip_handled = true;
  got_ip6_handled = true;
}

abbrev or_blank : Option (Wifi × List Call) → Wifi × List Call
or_blank none = (blank_wifi true, [])
or_blank (some out) = out

-- What wifi_manager_init leaves, and the calls that it made.
abbrev at_boot : Wifi × List Call
at_boot = or_blank (init mac set_up answers true network)

booted_right : init mac set_up answers true network ≡ some at_boot
unfolding init
booted_right = refl

abbrev at_start : World
at_start = after_calls powered_on at_boot

abbrev connected : World
connected = after_event mac network answers (got_ip (codes "10.0.0.2")) at_start

never_refused : (after_event mac network answers sta_disconnected connected).ignored ≡ false
unfolding init event_handler on_got_ip on_disconnected connects sets_mode
never_refused = refl

-- The device starts, gets an address, and loses the network.
init-WorldInv_example : WorldInv (after_event mac network answers sta_disconnected connected)
init-WorldInv_example =
    init-WorldInv mac set_up answers network refl refl refl at_boot _ booted_right
      (next (next here (event answers (got_ip (codes "10.0.0.2")) at_start))
        (event answers sta_disconnected connected))
      never_refused

abbrev ap_only : World
ap_only = powered_on

connect_accepted :
    (connect_sta 2 digest writes mac answers
      (codes "lab")
      (codes "secret")
      ap_only.wifi
      (network, [])).0
    ≡ ok
unfolding connect_sta begin_connect
connect_accepted = refl

connect_sta-WorldInv_example :
    WorldInv (
      after_connect 2 digest writes mac answers
        (codes "lab")
        (codes "secret")
        (network, [])
        ap_only)
connect_sta-WorldInv_example =
    connect_sta-WorldInv 2 digest writes mac answers (codes "lab") (codes "secret") (network, [])
      ap_only (record { not_scanning = refl; has_timer = refl; same_mode = refl }) connect_accepted
