-- ===== src/Wifi/Manage.antt =====
-- main/wifi_manager.c: wifi_manager_init and the operations that the web server calls. The part of
-- NVS and of the configuration is that of main/config.c.
use esp32_web_terminal.Prelude.{
  ℕ, Bool, true, false, not, ◌&&◌, ◌||◌, Option, none, some, List, [], ◌∷◌, ◌++◌, Bytes, ltb, ◌==◌,
  if◌then◌else◌, length, take,
}
use esp32_web_terminal.Config.Store.{Config, Nvs}
use esp32_web_terminal.Config.Setters.{wifi_sta, wifi_ap, apply_setting}
use esp32_web_terminal.Wifi.{
  ap, ap_sta, is_ap_sta, Wifi, Call, connect, disconnect, start, stop, set_mode, set_sta_config,
  Reply, ok, invalid_arg, failed, Answers, Mac, sta_ssid_max, sta_pass_max, ap_ssid_size,
  build_ap_ssid, start_ap, start_configured_ap, configured, stop_timer,
}
use esp32_web_terminal.Wifi.Hostname.{update_hostname}

-- The credentials as `strncpy` puts them into wifi_config_t.
unfoldable pub sta_credentials : Bytes → Bytes → Call
sta_credentials ssid password = set_sta_config (take sta_ssid_max ssid) (take sta_pass_max password)

-- `ssid_len == 0 || ssid_len > STA_SSID_MAXLEN`, or a password that is too long.
abbrev pub refused : Bytes → Bytes → Bool
refused ssid password =
    (length ssid == 0 || ltb sta_ssid_max (length ssid)) || ltb sta_pass_max (length password)

-- The end of wifi_manager_connect_sta: from the new configuration of the station on.
unfoldable pub begin_connect :
    Answers → Bool → Bytes → Bytes → Wifi → List Call → Reply × Wifi × List Call
unfolding sta_credentials
begin_connect a was_running ssid password w calls =
    let configured_calls = calls ++ (sta_credentials ssid password ∷ []) in
    let fresh = record w { retry_count = 0; connected_bit = false; fail_bit = false } in
    if not a.sta_config_taken
    then (failed, w, configured_calls)
    else if was_running
    then (if a.connect_accepted then ok else failed, fresh, configured_calls ++ (connect ∷ []))
    else (if a.started then ok else failed, fresh, configured_calls ++ (start ∷ []))

module _ (port_max : ℕ) (sha256 : Bytes → Bytes) {S : Type 0} (nvs : Nvs S) (mac : Mac) where
  -- wifi_manager_connect_sta: its result, the manager, the configuration with NVS, and the calls.
  -- `connect_accepted` covers ESP_ERR_WIFI_CONN, which the source takes for success.
  unfoldable pub connect_sta :
      Answers → Bytes → Bytes → Wifi → Config × S → Reply × Wifi × (Config × S) × List Call
  unfolding begin_connect start_configured_ap apply_setting
  connect_sta a ssid password w stored =
      let stored' = apply_setting port_max sha256 nvs (wifi_sta ssid password) stored in
      let (r0, w0, calls0) = start_configured_ap mac a stored'.0 (record w { mode = ap_sta }) in
      let (r1, w1, calls1) = begin_connect a true ssid password w [] in
      let (r2, w2, calls2) =
        begin_connect a false ssid password w0 (stop ∷ set_mode ap_sta ∷ calls0) in
      if refused ssid password
      then (invalid_arg, w, stored, [])
      else if is_ap_sta w.mode
      then (r1, w1, stored', calls1)
      else if not a.mode_set
      then (failed, w, stored', stop ∷ set_mode ap_sta ∷ [])
      else (r2, w2, stored', calls2)

  -- wifi_manager_disconnect_sta
  unfoldable pub disconnect_sta :
      Answers → Wifi → Config × S → Reply × Wifi × (Config × S) × List Call
  unfolding start_configured_ap apply_setting
  disconnect_sta a w stored =
      let (stopped, stops) = stop_timer w in
      let stored' = apply_setting port_max sha256 nvs (wifi_sta [] []) stored in
      let calls = stops ++ (disconnect ∷ stop ∷ set_mode ap ∷ []) in
      let alone = record stopped { mode = ap; sta_connected = false; sta_ip = [] } in
      let (r, w', ap_calls) = start_configured_ap mac a stored'.0 alone in
      if a.mode_set
      then (if a.started then ok else failed, w', stored', calls ++ (ap_calls ++ (start ∷ [])))
      else (failed, stopped, stored', calls)

  -- wifi_manager_update_ap, where config_set_wifi_ap can open NVS.
  unfoldable pub update_ap :
      Answers → Bytes → Bytes → Wifi → Config × S → Reply × Wifi × (Config × S) × List Call
  unfolding start_ap build_ap_ssid apply_setting
  update_ap a ssid password w stored =
      let stored' = apply_setting port_max sha256 nvs (wifi_ap ssid password) stored in
      let (r, w', calls) = start_ap a (build_ap_ssid mac ap_ssid_size ssid) password w in
      (r, w', stored', calls)

-- s_status after its memset, with the other statics.
abbrev pub blank_wifi : Bool → Wifi
blank_wifi has_timer = record {
  retry_count = 0;
  mode = ap;
  sta_connected = false;
  sta_ip = [];
  ap_ip = [];
  scanning = false;
  connected_bit = false;
  fail_bit = false;
  has_timer = has_timer;
  timer_runs = false;
}

-- What the calls before the hostname answer: esp_netif_init, esp_event_loop_create_default,
-- esp_wifi_init, and esp_event_handler_instance_register for each of its three events.
pub record Setup : Type 0 where
  pub netif_ready : Bool
  pub loop_made : Bool
  pub driver_ready : Bool
  pub wifi_handled : Bool
  pub got_ip_handled : Bool
  pub got_ip6_handled : Bool

-- Whether each ESP_ERROR_CHECK before the hostname passes.
abbrev pub is_set_up : Setup → Bool
is_set_up p =
    (p.netif_ready && p.loop_made && p.driver_ready)
    && (p.wifi_handled && p.got_ip_handled && p.got_ip6_handled)

-- wifi_manager_init up to the wait for the first connection; none where an ESP_ERROR_CHECK aborts.
-- mdns_init_service makes its calls of mDNS as update_hostname does.
unfoldable pub init : Mac → Setup → Answers → Bool → Config → Option (Wifi × List Call)
unfolding start_configured_ap sta_credentials update_hostname
init mac p a has_timer c =
    let names = update_hostname true c.device_name ++ update_hostname false c.device_name in
    let (r, w, calls) =
      start_configured_ap mac a c (record (blank_wifi has_timer) { mode = ap_sta }) in
    let (r', w', calls') = start_configured_ap mac a c (blank_wifi has_timer) in
    if not (is_set_up p)
    then none
    else if not (a.mode_set && a.started)
    then none
    else if configured c && not (ltb sta_ssid_max (length c.sta_ssid))
    then some (
      if a.sta_config_taken then w else record w { mode = ap },
      names ++ (set_mode ap_sta ∷ (calls ++ (sta_credentials c.sta_ssid c.sta_pass ∷ start ∷ []))),
    )
    else some (w', names ++ (set_mode ap ∷ (calls' ++ (start ∷ []))))
