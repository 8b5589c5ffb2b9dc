-- ===== src/Wifi.antt =====
-- main/wifi_manager.c: the state of the manager, the names of its access point, event_handler and
-- the reconnect timer. ESP-IDF is not modelled: what its calls answer is an argument, and the
-- calls that an operation makes are listed in order.
pub mod Hostname
pub mod Manage
pub mod Scan
pub mod Reach
pub mod Names
pub mod Tests
use esp32_web_terminal.Prelude.{
  ℕ, ◌+◌, ◌-◌, ◌/◌, ◌%◌, Bool, true, false, ◌&&◌, Option, none, some, List, [], ◌∷◌, ◌++◌, Bytes,
  ltb, if◌then◌else◌, length, take,
}
use esp32_web_terminal.Config.Store.{Config}

-- wifi_manager_mode_t, and the modes of the driver that the manager sets.
pub data Mode : Type 0 where
  ap sta ap_sta : Mode

-- A network interface.
pub data Netif : Type 0 where
  sta_netif ap_netif : Netif

-- The static state: s_retry_count, s_status, s_scanning, the bits of s_wifi_event_group, whether
-- s_reconnect_timer was created, and whether it runs.
pub record Wifi : Type 0 where
  pub retry_count : ℕ
  pub mode : Mode
  pub sta_connected : Bool
  pub sta_ip : Bytes
  pub ap_ip : Bytes
  pub scanning : Bool
  pub connected_bit : Bool
  pub fail_bit : Bool
  pub has_timer : Bool
  pub timer_runs : Bool

-- The fields of wifi_config_t that start_ap fills.
pub record ApConfig : Type 0 where
  pub ssid : Bytes
  pub ssid_len : ℕ
  pub password : Bytes
  pub open_auth : Bool

-- The calls of ESP-IDF and FreeRTOS that the manager makes.
pub data Call : Type 0 where
  connect disconnect start stop timer_start timer_stop clear_ap_list scan_start : Call
  set_mode : Mode → Call
  set_ap_config : ApConfig → Call
  set_sta_config : Bytes → Bytes → Call
  create_ip6_linklocal : Netif → Call
  set_hostname mdns_hostname mdns_instance : Bytes → Call

-- The results of an operation.
pub data Reply : Type 0 where
  ok invalid_arg failed : Reply

-- What ESP-IDF answers: whether each call succeeds, and the address of the access point as text.
pub record Answers : Type 0 where
  pub mode_set : Bool
  pub ap_config_taken : Bool
  pub sta_config_taken : Bool
  pub started : Bool
  pub connect_accepted : Bool
  pub ap_address : Option Bytes

abbrev pub max_sta_retries : ℕ
max_sta_retries = 5

-- STA_SSID_MAXLEN and STA_PASS_MAXLEN, the sizes of wifi_config_t's fields.
abbrev pub sta_ssid_max : ℕ
sta_ssid_max = 32

abbrev pub sta_pass_max : ℕ
sta_pass_max = 64

-- `char truncated[28]` and `char ap_ssid[33]`.
abbrev pub base_size : ℕ
base_size = 28

abbrev pub ap_ssid_size : ℕ
ap_ssid_size = 33

-- The buffers of sta_ip and ap_ip.
abbrev pub ip_size : ℕ
ip_size = 16

-- "%02X" of a byte.
abbrev pub upper_digit : ℕ → ℕ
upper_digit d = if ltb d 10 then 48 + d else 55 + d

abbrev pub hex_byte : ℕ → Bytes
hex_byte b = upper_digit (b / 16 % 16) ∷ upper_digit (b % 16) ∷ []

-- The last two bytes of the MAC address.
pub record Mac : Type 0 where
  pub fifth : ℕ
  pub sixth : ℕ

-- build_ap_ssid, into a buffer of `out_len` bytes.
unfoldable pub build_ap_ssid : Mac → ℕ → Bytes → Bytes
build_ap_ssid mac out_len base =
    take (out_len - 1)
      (take (base_size - 1) base ++ (b'-' ∷ (hex_byte mac.fifth ++ hex_byte mac.sixth)))

-- The config that start_ap hands to the driver.
unfoldable pub ap_config : Bytes → Bytes → ApConfig
ap_config ssid password = record {
  ssid = take sta_ssid_max ssid;
  ssid_len = length ssid;
  password = take sta_pass_max password;
  open_auth = ltb (length password) 8;
}

abbrev pub keep_ap_ip : Option Bytes → Wifi → Wifi
keep_ap_ip none w = w
keep_ap_ip (some ip) w = record w { ap_ip = take (ip_size - 1) ip }

abbrev pub Outcome : Type 0
Outcome = Reply × Wifi × List Call

unfoldable pub start_ap : Answers → Bytes → Bytes → Wifi → Outcome
unfolding ap_config
start_ap a ssid password w =
    if a.ap_config_taken
    then (ok, keep_ap_ip a.ap_address w, set_ap_config (ap_config ssid password) ∷ [])
    else (failed, w, set_ap_config (ap_config ssid password) ∷ [])

-- start_ap with the names of the configuration.
unfoldable pub start_configured_ap : Mac → Answers → Config → Wifi → Outcome
unfolding start_ap build_ap_ssid
start_configured_ap mac a c w = start_ap a (build_ap_ssid mac ap_ssid_size c.ap_ssid) c.ap_pass w

abbrev pub is_sta : Mode → Bool
is_sta sta = true
is_sta ap = false
is_sta ap_sta = false

abbrev pub is_ap_sta : Mode → Bool
is_ap_sta ap_sta = true
is_ap_sta ap = false
is_ap_sta sta = false

-- `strlen(config_get()->sta_ssid) > 0`
abbrev pub configured : Config → Bool
configured c = ltb 0 (length c.sta_ssid)

-- The events that event_handler is registered for.
pub data Event : Type 0 where
  sta_start sta_connected ap_start sta_disconnected got_ip6 ap_sta_connected ap_sta_disconnected :
      Event
  got_ip : Bytes → Event

-- The access point again, where the manager had switched it off.
unfoldable pub fall_back : Mac → Answers → Config → Wifi → Wifi × List Call
unfolding start_configured_ap
fall_back mac a c w =
    let started = start_configured_ap mac a c (record w { mode = ap_sta }) in
    if is_sta w.mode then (started.1, set_mode ap_sta ∷ started.2) else (w, [])

abbrev pub start_timer : Config → Wifi × List Call → Wifi × List Call
start_timer c (w, calls) =
    if w.has_timer && configured c
    then (record w { timer_runs = true }, calls ++ (timer_start ∷ []))
    else (w, calls)

-- The branch of WIFI_EVENT_STA_DISCONNECTED.
unfoldable pub on_disconnected : Mac → Answers → Config → Wifi → Wifi × List Call
unfolding fall_back
on_disconnected mac a c w =
    let lost = record w { sta_connected = false; sta_ip = [] } in
    if w.scanning
    then (w, [])
    else if ltb w.retry_count max_sta_retries
    then (record lost { retry_count = w.retry_count + 1 }, connect ∷ [])
    else start_timer c (fall_back mac a c (record lost { fail_bit = true }))

abbrev pub stop_timer : Wifi → Wifi × List Call
stop_timer w = if w.has_timer then (record w { timer_runs = false }, timer_stop ∷ []) else (w, [])

abbrev pub drop_ap : Wifi × List Call → Wifi × List Call
drop_ap (w, calls) =
    if is_ap_sta w.mode
    then (record w { mode = sta; ap_ip = [] }, calls ++ (set_mode sta ∷ []))
    else (w, calls)

-- The branch of IP_EVENT_STA_GOT_IP, with the address as text.
unfoldable pub on_got_ip : Bytes → Wifi → Wifi × List Call
on_got_ip ip w = drop_ap (
    stop_timer (record w {
      sta_ip = take (ip_size - 1) ip;
      sta_connected = true;
      retry_count = 0;
      connected_bit = true;
    }))

unfoldable pub event_handler : Mac → Answers → Config → Event → Wifi → Wifi × List Call
unfolding on_disconnected on_got_ip
event_handler mac a c sta_start w = if w.scanning then (w, []) else (w, connect ∷ [])
event_handler mac a c sta_connected w = (w, create_ip6_linklocal sta_netif ∷ [])
event_handler mac a c ap_start w = (w, create_ip6_linklocal ap_netif ∷ [])
event_handler mac a c sta_disconnected w = on_disconnected mac a c w
event_handler mac a c got_ip6 w = (w, [])
event_handler mac a c ap_sta_connected w = (w, [])
event_handler mac a c ap_sta_disconnected w = (w, [])
event_handler mac a c (got_ip ip) w = on_got_ip ip w

-- reconnect_timer_cb
unfoldable pub reconnect_timer_cb : Wifi → Wifi × List Call
reconnect_timer_cb w =
    if w.sta_connected
    then (record w { timer_runs = false }, timer_stop ∷ [])
    else (record w { retry_count = 0; connected_bit = false; fail_bit = false }, connect ∷ [])
