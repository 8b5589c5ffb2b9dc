-- ===== src/Http/Settings.antt =====
-- main/web_server.c: handle_config_post, one function for each setting that it reads, in order.
pub mod Setup
pub mod Locked
pub mod Password
pub mod Kept
pub mod Credentials
use esp32_web_terminal.Prelude.{
  ℕ, ◌+◌, ◌-◌, ◌%◌, ◌^◌, Bool, true, false, not, ◌&&◌, ◌||◌, Option, none, some, List, [], ◌∷◌,
  ◌++◌, Bytes, codes, ltb, leb, ◌==◌, if◌then◌else◌, length, map, str_eq, ℤ, pos, negsuc,
}
use esp32_web_terminal.Auth.Sessions.{invalidate_all_sessions}
use esp32_web_terminal.Config.Store.{Config, Nvs, Draw}
use esp32_web_terminal.Config.Setters.{
  Setting, baud_rate_port, power_on_default, device_name, ntp_server, timezone, credentials,
  apply_setting, check_password,
}
use esp32_web_terminal.Wifi
use esp32_web_terminal.Wifi.{Mac, Answers}
use esp32_web_terminal.Wifi.Hostname.{update_hostname}
use esp32_web_terminal.Wifi.Manage.{connect_sta, disconnect_sta, update_ap}
use esp32_web_terminal.Ws.Clients.{close_all}
use esp32_web_terminal.Http.{
  Server, Effect, wifi_call, serial_baud, close_socket, set_timezone, Response, error, Request,
  Document, Outcome, ok_response, setup_locked, require_auth, bad_request, answer,
}
use esp32_web_terminal.Http.Body.{Body, absent, bad, body, read_body}
use esp32_web_terminal.Http.Flow.{
  Flow, going, answered, after, ◌>>=◌, refuse, both, after_wifi, finished,
}

-- is_credential_key; a key is NULL for an item without one.
abbrev pub is_credential_key : Option Bytes → Bool
is_credential_key none = false
is_credential_key (some key) =
    str_eq key (codes "new_password")
    || (str_eq key (codes "current_password") || str_eq key (codes "username"))

abbrev pub names_new_password : Option Bytes → Bool
names_new_password none = false
names_new_password (some key) = str_eq key (codes "new_password")

-- The loop of setup mode: whether every key is one of the credentials', and then whether one is
-- the new password's.
unfoldable pub credentials_only : List (Option Bytes) → Bool → Bool
credentials_only [] has_new_pass = has_new_pass
credentials_only (key ∷ keys) has_new_pass =
    let rest = credentials_only keys (has_new_pass || names_new_password key) in
    if is_credential_key key then rest else false

abbrev pub valid_bauds : List ℕ
valid_bauds = 9600 ∷ 19200 ∷ 38400 ∷ 57600 ∷ 115200 ∷ 230400 ∷ 460800 ∷ 921600 ∷ 1500000 ∷ []

unfoldable pub listed : ℕ → List ℕ → Bool
listed b [] = false
listed b (v ∷ vs) = b == v || listed b vs

-- `(uint32_t)baud->valuedouble`, by the number's integer part; out of the range of uint32_t the
-- cast is undefined in C, and the model wraps.
abbrev pub to_u32 : ℤ → ℕ
to_u32 (pos n) = n % 2 ^ 32
to_u32 (negsuc n) = 2 ^ 32 - 1 - n % 2 ^ 32

-- `port`, where it lies in the table.
abbrev pub port_of : ℕ → Option ℤ → Option ℕ
port_of count none = if ltb 0 count then some 0 else none
port_of count (some (pos i)) = if ltb i count then some i else none
port_of count (some (negsuc n)) = none

abbrev pub min_password_len : ℕ
min_password_len = 8

-- CONFIG_AUTH_USER_MAX_LEN
abbrev pub user_max : ℕ
user_max = 32

-- What the handler draws from outside: the answers of ESP-IDF to the Wi-Fi calls of each setting,
-- the salt, and the memory of the password check.
pub record Draws : Type 0 where
  pub ap_answers : Answers
  pub sta_answers : Answers
  pub disconnect_answers : Answers
  pub draw : Draw
  pub allocated : Bool
  pub junk : Bytes

module _ (port_max : ℕ) (sha256 : Bytes → Bytes) {S : Type 0} (nvs : Nvs S) (mac : Mac)
    (count : ℕ) where
  -- A setter of config.c, whose result the handler ignores.
  abbrev pub set_config : Setting → Server S → Server S
  set_config x s =
      let r = apply_setting port_max sha256 nvs x (s.config, s.store) in
      record s { config = r.0; store = r.1 }

  unfoldable pub post_baud : Document → Server S → Flow S
  unfolding listed
  post_baud d s = elim (d.number_at (codes "baud_rate")) [
    | none ↦ going s []
    | some rate ↦
        if listed (to_u32 rate) valid_bauds
        then elim (port_of count (d.number_at (codes "port"))) [
          | none ↦ going s []
          | some i ↦
              going (set_config (baud_rate_port i (to_u32 rate)) s)
                (serial_baud i (to_u32 rate) ∷ [])
        ]
        else going s []
  ]

  unfoldable pub post_ap : Answers → Document → Server S → Flow S
  unfolding update_ap
  post_ap a d s = elim (both (d.string_at (codes "ap_ssid")) (d.string_at (codes "ap_pass"))) [
    | none ↦ going s []
    | some (ssid, pass) ↦
        if length ssid == 0 || ltb 27 (length ssid)
        then refuse s 400 (codes "AP SSID must be 1-27 characters")
        else if ltb 0 (length pass) && ltb (length pass) 8
        then refuse s 400 (codes "AP password must be 8+ characters or empty for open")
        else after_wifi s (codes "AP reconfiguration failed")
            (update_ap port_max sha256 nvs mac a ssid pass s.wifi (s.config, s.store))
  ]

  unfoldable pub post_sta : Answers → Document → Server S → Flow S
  unfolding connect_sta
  post_sta a d s = elim (both (d.string_at (codes "sta_ssid")) (d.string_at (codes "sta_pass"))) [
    | none ↦ going s []
    | some (ssid, pass) ↦
        after_wifi s (codes "Invalid SSID or password")
          (connect_sta port_max sha256 nvs mac a ssid pass s.wifi (s.config, s.store))
  ]

  unfoldable pub post_power_default : Document → Server S → Flow S
  post_power_default d s = elim (d.bool_at (codes "power_on_default")) [
    | none ↦ going s []
    | some on ↦ going (set_config (power_on_default on) s) []
  ]

  unfoldable pub post_device_name : Document → Server S → Flow S
  unfolding update_hostname
  post_device_name d s = elim (d.string_at (codes "device_name")) [
    | none ↦ going s []
    | some name ↦
        if ltb 0 (length name)
        then going (set_config (device_name name) s) (map wifi_call (update_hostname true name))
        else going s []
  ]

  unfoldable pub post_ntp_server : Document → Server S → Flow S
  post_ntp_server d s = elim (d.string_at (codes "ntp_server")) [
    | none ↦ going s []
    | some server ↦ going (set_config (ntp_server server) s) []
  ]

  unfoldable pub post_timezone : Document → Server S → Flow S
  post_timezone d s = elim (d.string_at (codes "timezone")) [
    | none ↦ going s []
    | some tz ↦ going (set_config (timezone tz) s) (set_timezone tz ∷ [])
  ]

  unfoldable pub post_disconnect : Answers → Document → Server S → Flow S
  unfolding disconnect_sta
  post_disconnect a d s = elim (d.bool_at (codes "wifi_disconnect")) [
    | none ↦ going s []
    | some wanted ↦
        if wanted
        then after_wifi s (codes "Could not switch to AP mode")
            (disconnect_sta port_max sha256 nvs mac a s.wifi (s.config, s.store))
        else going s []
  ]

  -- config_set_auth, auth_invalidate_all_sessions and web_server_ws_close_all.
  unfoldable pub change_password : Draw → Bytes → Bytes → Server S → Flow S
  unfolding invalidate_all_sessions close_all
  change_password w user password s =
      let s' = set_config (credentials w user password) s in
      let closed = close_all s.clients in
      going
        (record s' {
          auth = record {
            sessions = invalidate_all_sessions s.auth.sessions;
            hosts = s.auth.hosts;
          };
          clients = closed.0;
        })
        (map close_socket closed.1)

  -- `!cJSON_IsString(cur_pass) || !config_check_password(cur_pass->valuestring)`
  abbrev pub password_wrong : Draws → Option Bytes → Config → Bool
  password_wrong x none c = true
  password_wrong x (some current) c = not (check_password sha256 x.allocated x.junk current c)

  unfoldable pub post_password : Draws → Document → Server S → Flow S
  unfolding change_password
  post_password x d s = elim (d.string_at (codes "new_password")) [
    | none ↦ going s []
    | some new_pass ↦
        if ltb (length new_pass) min_password_len
        then refuse s 400 (codes "New password must be 8+ characters")
        else if password_wrong x (d.string_at (codes "current_password")) s.config
        then refuse s 401 (codes "Current password required")
        else elim (d.string_at (codes "username")) [
          | none ↦ change_password x.draw s.config.auth_user new_pass s
          | some user ↦
              if length user == 0 || ltb user_max (length user)
              then refuse s 400 (codes "Username must be 1-32 characters")
              else change_password x.draw user new_pass s
        ]
  ]

  -- From the check of setup mode on.
  unfoldable pub post_document : Draws → Document → Server S → Flow S
  post_document x d s =
      if not s.config.auth_initialized && not (credentials_only d.keys false)
      then answered s setup_locked []
      else post_baud d s
        >>= post_ap x.ap_answers d
        >>= post_sta x.sta_answers d
        >>= post_power_default d
        >>= post_device_name d
        >>= post_ntp_server d
        >>= post_timezone d
        >>= post_disconnect x.disconnect_answers d
        >>= post_password x d

  -- The handler behind its guard; `parse` is cJSON_Parse.
  unfoldable pub post_body : (Bytes → Option Document) → Draws → Body → Server S → Outcome S
  unfolding post_document
  post_body parse x absent s = bad_request s (codes "Empty request body")
  post_body parse x bad s = bad_request s (codes "Invalid request size")
  post_body parse x (body bytes) s = elim (parse bytes) [
    | none ↦ bad_request s (codes "Invalid JSON")
    | some d ↦ finished (post_document x d s)
  ]

  unfoldable pub handle_config_post :
      (Bytes → Option Document) → Draws → Request → Server S → Outcome S
  unfolding require_auth post_body read_body
  handle_config_post parse x r s =
      require_auth r s (λ s'. post_body parse x (read_body r.content_len r.segments 512) s')
