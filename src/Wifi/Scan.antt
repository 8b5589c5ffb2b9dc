-- ===== src/Wifi/Scan.antt =====
-- main/wifi_manager.c: wifi_manager_scan, in two parts: up to the blocking scan, while which events
-- are handled, and from its end on. Of ESP-IDF it takes the mode, the result of the scan and the
-- records found.
pub mod Unique
use esp32_web_terminal.Prelude.{
  ℕ, suc, ◌+◌, ◌-◌, Bool, true, false, not, Option, none, some, List, [], ◌∷◌, ◌++◌, Bytes, ltb,
  ◌==◌, if◌then◌else◌, length, take, str_eq, ℤ, ltb_ℤ,
}
use esp32_web_terminal.Config.Store.{Config}
use esp32_web_terminal.Wifi.{
  Mode, ap, sta, ap_sta, Wifi, Call, connect, disconnect, set_mode, scan_start, clear_ap_list,
  configured,
}

-- wifi_ap_record_t, as far as it is read.
pub record ApRecord : Type 0 where
  pub ssid : Bytes
  pub rssi : ℤ
  pub is_open : Bool

-- wifi_scan_result_t
pub record ScanResult : Type 0 where
  pub ssid : Bytes
  pub rssi : ℤ
  pub secured : Bool

abbrev pub ssid_buffer : ℕ
ssid_buffer = 33

-- A record for an SSID that is not in the results yet.
abbrev pub first_seen : ApRecord → ScanResult
first_seen r = record {
  ssid = take (ssid_buffer - 1) r.ssid;
  rssi = r.rssi;
  secured = not r.is_open;
}

-- `if (ap_records[i].rssi > res[j].rssi) res[j].rssi = ap_records[i].rssi;`
abbrev pub stronger : ApRecord → ScanResult → ScanResult
stronger r e = if ltb_ℤ e.rssi r.rssi then record e { rssi = r.rssi } else e

-- The inner loop over the results so far, and what is appended where it finds no duplicate.
unfoldable pub merge : ApRecord → List ScanResult → List ScanResult
merge r [] = first_seen r ∷ []
merge r (e ∷ es) =
    let rest = merge r es in if str_eq e.ssid r.ssid then stronger r e ∷ es else e ∷ rest

-- The loop over the records; a hidden network has no SSID.
unfoldable pub dedupe : List ApRecord → List ScanResult → List ScanResult
unfolding merge
dedupe [] found = found
dedupe (r ∷ rs) found = dedupe rs (if length r.ssid == 0 then found else merge r found)

-- The driver's mode as esp_wifi_get_mode reports it.
abbrev pub is_ap : Mode → Bool
is_ap ap = true
is_ap sta = false
is_ap ap_sta = false

-- Up to the call of esp_wifi_scan_start.
unfoldable pub scan_begin : Mode → Wifi → Wifi × List Call
scan_begin orig_mode w = (
  record w { scanning = true },
  (if is_ap orig_mode then set_mode ap_sta else disconnect) ∷ scan_start ∷ [],
)

-- What the blocking scan ends with: an error; no network; no memory for the records or for the
-- results; or records, of which the first 20 are read.
pub data Scanned : Type 0 where
  scan_failed nothing_found no_record_memory no_result_memory : Scanned
  found : List ApRecord → Scanned

abbrev pub max_results : ℕ
max_results = 20

-- The calls before the mode is restored.
abbrev pub cleared : Scanned → List Call
cleared scan_failed = []
cleared nothing_found = clear_ap_list ∷ []
cleared no_record_memory = clear_ap_list ∷ []
cleared no_result_memory = clear_ap_list ∷ []
cleared (found rs) = clear_ap_list ∷ []

-- The results: none where the function returns -1.
abbrev pub results : Scanned → Option (List ScanResult)
results scan_failed = none
results nothing_found = some []
results no_record_memory = none
results no_result_memory = none
results (found rs) = some (dedupe (take max_results rs) [])

-- From the end of the scan on.
unfoldable pub scan_end :
    Mode → Config → Scanned → Wifi → Option (List ScanResult) × Wifi × List Call
unfolding dedupe
scan_end orig_mode c scanned w = (
  results scanned,
  record w { scanning = false },
  cleared scanned
      ++ ((if is_ap orig_mode then set_mode orig_mode ∷ [] else [])
          ++ (if configured c then connect ∷ [] else [])),
)
