-- ===== src/Wifi/Reach.antt =====
-- main/wifi_manager.c as interleaved steps: the event handler on the system event task, the timer,
-- and a scan on the httpd task. They ignore what esp_wifi_connect and esp_wifi_set_mode answer.
use esp32_web_terminal.Prelude.{
  ℕ, ◌≤◌, ◌≡◌, refl, sym, ◌∙◌, Bool, true, false, not, ◌&&◌, ◌||◌, some, ltb, length, List, [], ◌∷◌,
  arith, Bytes, if◌then◌else◌,
}
use esp32_web_terminal.Config.Store.{Config, Nvs}
use esp32_web_terminal.Wifi.{
  Mode, ap, ap_sta, sta_ssid_max, is_sta, Wifi, Call, connect, start, set_mode, Answers, Mac,
  max_sta_retries, configured, Event, sta_start, ap_start, sta_disconnected, got_ip6,
  ap_sta_connected, ap_sta_disconnected, got_ip, event_handler, on_disconnected, on_got_ip,
  fall_back, start_configured_ap, start_ap, reconnect_timer_cb, ok,
}
use esp32_web_terminal.Wifi.Hostname.{update_hostname}
use esp32_web_terminal.Wifi.Manage.{
  Setup, init, blank_wifi, connect_sta, begin_connect, sta_credentials,
}
use esp32_web_terminal.Wifi.Scan.{
  Scanned, scan_failed, nothing_found, no_record_memory, no_result_memory, found, is_ap, scan_begin,
  scan_end,
}

-- The mode that calls leave the driver in.
unfoldable pub radio_after : Mode → List Call → Mode
radio_after m [] = m
radio_after m (set_mode m' ∷ cs) = radio_after m' cs
radio_after m (c ∷ cs) = radio_after m cs

-- Whether a list of calls asks the driver to connect, or to start.
unfoldable pub connects : List Call → Bool
connects [] = false
connects (connect ∷ cs) = true
connects (c ∷ cs) = connects cs

unfoldable pub starts : List Call → Bool
starts [] = false
starts (start ∷ cs) = true
starts (c ∷ cs) = starts cs

-- Whether a list of calls asks the driver for a mode.
unfoldable pub sets_mode : List Call → Bool
sets_mode [] = false
sets_mode (set_mode m ∷ cs) = true
sets_mode (c ∷ cs) = sets_mode cs

-- The manager, the mode of the driver, whether a connection was asked for and not reported on,
-- whether the driver was started and has not said so, and the mode that a scan restores. `ignored`
-- records history: the driver refused a call whose error the code ignores.
pub record World : Type 0 where
  pub wifi : Wifi
  pub radio : Mode
  pub attempt : Bool
  pub starting : Bool
  pub orig_mode : Mode
  pub ignored : Bool

-- A world after an operation that checks its calls left a manager and made some calls.
abbrev pub after_calls : World → Wifi × List Call → World
after_calls w (wifi, calls) = record w {
  wifi = wifi;
  radio = radio_after w.radio calls;
  attempt = w.attempt || connects calls;
  starting = w.starting || starts calls;
}

-- A world after an operation that ignores what the driver answers to its calls: a mode that is
-- refused does not change the driver, and a connection that is refused is not reported on.
abbrev pub after_unchecked : Answers → World → Wifi × List Call → World
after_unchecked a w (wifi, calls) = record w {
  wifi = wifi;
  radio = if a.mode_set then radio_after w.radio calls else w.radio;
  attempt = w.attempt || (a.connect_accepted && connects calls);
  starting = w.starting || starts calls;
  ignored =
      w.ignored
      || ((not a.connect_accepted && connects calls) || (not a.mode_set && sets_mode calls));
}

-- What an event reports: the end of an attempt to connect, or the start.
abbrev pub reported : Event → World → World
reported sta_disconnected w = record w { attempt = false }
reported (got_ip ip) w = record w { attempt = false }
reported sta_start w = record w { starting = false }
reported e w = w

module _ (mac : Mac) (c : Config) where
  abbrev pub after_event : Answers → Event → World → World
  after_event a e w = after_unchecked a (reported e w) (event_handler mac a c e w.wifi)

  abbrev pub after_timer : Answers → World → World
  after_timer a w = after_unchecked a w (reconnect_timer_cb w.wifi)

  abbrev pub after_scan_begin : Answers → World → World
  after_scan_begin a w = record (after_unchecked a w (scan_begin w.radio w.wifi)) {
    orig_mode = w.radio;
  }

  abbrev pub after_scan_end : Answers → Scanned → World → World
  after_scan_end a x w = let r = scan_end w.orig_mode c x w.wifi in after_unchecked a w (r.1, r.2)

  -- Events come in any order; the timer fires while it runs; the httpd task scans once at a time.
  pub data Step : World → World → Type 0 where
    event : (a : Answers) (e : Event) (w : World) → Step w (after_event a e w)
    timer : (a : Answers) (w : World) → w.wifi.timer_runs ≡ true → Step w (after_timer a w)
    begin_scan : (a : Answers) (w : World) → w.wifi.scanning ≡ false → Step w (after_scan_begin a w)
    end_scan :
        (a : Answers) (x : Scanned) (w : World)
        → w.wifi.scanning ≡ true
        → Step w (after_scan_end a x w)

  pub data Run (w : World) : World → Type 0 where
    here : Run w w
    next : {u v : World} → Run w u → Step u v → Run w v

-- Something will bring the station back: s_status says that it is connected, the driver is to
-- report on an attempt that it accepted or on its start, a scan is to end, or the timer runs.
abbrev pub trying : World → Bool
trying w =
    w.wifi.sta_connected || (w.attempt || (w.starting || (w.wifi.scanning || w.wifi.timer_runs)))

-- Something other than the timer will.
abbrev pub busy : World → Bool
busy w = w.wifi.sta_connected || (w.attempt || (w.starting || w.wifi.scanning))

-- The mode that s_status has while a scan has changed that of the driver.
abbrev pub recorded : World → Mode
recorded w = if w.wifi.scanning && is_ap w.orig_mode then ap_sta else w.wifi.mode

pub record WorldInv (w : World) : Type 0 where
  pub tries : trying w ≡ true
  pub reachable : (is_sta w.wifi.mode && not (busy w)) ≡ false
  pub mode_kept : w.radio ≡ recorded w
  pub orig_kept : (w.wifi.scanning && is_ap w.orig_mode && not (is_ap w.wifi.mode)) ≡ false
  pub retries : w.wifi.retry_count ≤ max_sta_retries
  pub can_wait : w.wifi.has_timer ≡ true

module _ (mac : Mac) (c : Config) (usable : configured c ≡ true) where
  event-WorldInv :
      (a : Answers) (e : Event) (w : World)
      → (after_event mac c a e w).ignored ≡ false
      → WorldInv w
      → WorldInv (after_event mac c a e w)
  unfolding event_handler on_disconnected on_got_ip fall_back start_configured_ap start_ap connects
      starts radio_after sets_mode
  event-WorldInv a sta_start w fine v = ground arith
  event-WorldInv a Event.sta_connected w fine v = ground arith
  event-WorldInv a ap_start w fine v = ground arith
  event-WorldInv a sta_disconnected w fine v = ground arith
  event-WorldInv a got_ip6 w fine v = ground arith
  event-WorldInv a ap_sta_connected w fine v = ground arith
  event-WorldInv a ap_sta_disconnected w fine v = ground arith
  event-WorldInv a (got_ip ip) w fine v = ground arith

  timer-WorldInv :
      (a : Answers) (w : World)
      → (after_timer mac c a w).ignored ≡ false
      → WorldInv w
      → w.wifi.timer_runs ≡ true
      → WorldInv (after_timer mac c a w)
  unfolding reconnect_timer_cb connects starts radio_after sets_mode
  timer-WorldInv a w fine v runs = ground arith

  begin_scan-WorldInv :
      (a : Answers) (w : World)
      → (after_scan_begin mac c a w).ignored ≡ false
      → WorldInv w
      → w.wifi.scanning ≡ false
      → WorldInv (after_scan_begin mac c a w)
  unfolding scan_begin connects starts radio_after sets_mode
  begin_scan-WorldInv a w fine v idle = ground arith

  end_scan-WorldInv :
      (a : Answers) (x : Scanned) (w : World)
      → (after_scan_end mac c a x w).ignored ≡ false
      → WorldInv w
      → w.wifi.scanning ≡ true
      → WorldInv (after_scan_end mac c a x w)
  unfolding scan_end connects starts radio_after sets_mode
  end_scan-WorldInv a scan_failed w fine v busy = ground arith
  end_scan-WorldInv a nothing_found w fine v busy = ground arith
  end_scan-WorldInv a no_record_memory w fine v busy = ground arith
  end_scan-WorldInv a no_result_memory w fine v busy = ground arith
  end_scan-WorldInv a (found rs) w fine v busy = ground arith

  or_false : (a b : Bool) → (a || b) ≡ false → a ≡ false
  or_false a b e = ground arith

  reported_ignored : (e : Event) (w : World) → (reported e w).ignored ≡ w.ignored
  reported_ignored sta_start w = refl
  reported_ignored Event.sta_connected w = refl
  reported_ignored ap_start w = refl
  reported_ignored sta_disconnected w = refl
  reported_ignored got_ip6 w = refl
  reported_ignored ap_sta_connected w = refl
  reported_ignored ap_sta_disconnected w = refl
  reported_ignored (got_ip ip) w = refl

  -- A refused call stays recorded.
  Step_ignored : {u w : World} → Step mac c u w → w.ignored ≡ false → u.ignored ≡ false
  Step_ignored (event a e w) fine = sym (reported_ignored e w) ∙ or_false _ _ fine
  Step_ignored (timer a w runs) fine = or_false _ _ fine
  Step_ignored (begin_scan a w idle) fine = or_false _ _ fine
  Step_ignored (end_scan a x w busy) fine = or_false _ _ fine

  Step-WorldInv : {u w : World} → Step mac c u w → w.ignored ≡ false → WorldInv u → WorldInv w
  Step-WorldInv (event a e w) fine v = event-WorldInv a e w fine v
  Step-WorldInv (timer a w runs) fine v = timer-WorldInv a w fine v runs
  Step-WorldInv (begin_scan a w idle) fine v = begin_scan-WorldInv a w fine v idle
  Step-WorldInv (end_scan a x w busy) fine v = end_scan-WorldInv a x w fine v busy

  -- With a network configured, events, the timer and scans keep WorldInv in any order, as long as no
  -- call was refused whose error the code ignores.
  pub Run-WorldInv : {u w : World} → Run mac c u w → w.ignored ≡ false → WorldInv u → WorldInv w
  Run-WorldInv here fine v = v
  Run-WorldInv (next r s) fine v = Step-WorldInv s fine (Run-WorldInv r (Step_ignored s fine) v)

-- The world before wifi_manager_init.
abbrev pub powered_on : World
powered_on = record {
  wifi = blank_wifi true;
  radio = ap;
  attempt = false;
  starting = false;
  orig_mode = ap;
  ignored = false;
}

module _ (mac : Mac) (p : Setup) (a : Answers) (c : Config) (usable : configured c ≡ true)
    (fits : ltb sta_ssid_max (length c.sta_ssid) ≡ false) (taken : a.sta_config_taken ≡ true) where
  booted-WorldInv :
      (out : Wifi × List Call)
      → init mac p a true c ≡ some out
      → WorldInv (after_calls powered_on out)
  unfolding init update_hostname sta_credentials start_configured_ap start_ap connects starts
      radio_after
  booted-WorldInv out e = ground arith

  -- Once wifi_manager_init succeeded, with a timer and with a stored network that the driver takes,
  -- and however events, the timer and scans interleave from then on, unless the driver refused a
  -- connection or a mode that one of these asked for: s_status says that the station is connected, or
  -- the driver is still to report on an attempt that it accepted or on its start, or a scan is to
  -- end, or the timer runs; s_status has the access point off only in one of these cases other than
  -- the timer's; and the mode in s_status is the driver's, but for the mode that a scan restores.
  pub init-WorldInv :
      (out : Wifi × List Call) (w : World)
      → init mac p a true c ≡ some out
      → Run mac c (after_calls powered_on out) w
      → w.ignored ≡ false
      → WorldInv w
  init-WorldInv out w e run fine = Run-WorldInv mac c usable run fine (booted-WorldInv out e)

-- A world before a configuration change: no scan runs, the timer was created, and the mode in
-- s_status is that of the driver.
pub record Idle (w : World) : Type 0 where
  pub not_scanning : w.wifi.scanning ≡ false
  pub has_timer : w.wifi.has_timer ≡ true
  pub same_mode : w.radio ≡ w.wifi.mode

module _ (port_max : ℕ) (sha256 : Bytes → Bytes) {S : Type 0} (nvs : Nvs S) (mac : Mac) where
  -- A world after wifi_manager_connect_sta.
  abbrev pub after_connect : Answers → Bytes → Bytes → Config × S → World → World
  after_connect a ssid password stored w =
      let r = connect_sta port_max sha256 nvs mac a ssid password w.wifi stored in
      after_calls w (r.1, r.3)

  -- Where no scan runs, a timer exists and s_status has the mode of the driver: once
  -- wifi_manager_connect_sta returns ESP_OK, the state fulfils WorldInv.
  pub connect_sta-WorldInv :
      (a : Answers) (ssid password : Bytes) (stored : Config × S) (w : World)
      → Idle w
      → (connect_sta port_max sha256 nvs mac a ssid password w.wifi stored).0 ≡ ok
      → WorldInv (after_connect a ssid password stored w)
  unfolding connect_sta begin_connect sta_credentials start_configured_ap start_ap connects starts
      radio_after
  connect_sta-WorldInv a ssid password stored w i h = ground arith
