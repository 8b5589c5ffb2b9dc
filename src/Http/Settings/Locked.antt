-- ===== src/Http/Settings/Locked.antt =====
-- What handle_config_post of main/web_server.c can change before the password was changed.
use esp32_web_terminal.Prelude.{
  ℕ, ◌≡◌, refl, true, false, Option, none, some, List, [], ◌∷◌, arith, Bytes, map, Bool-cases,
  Option-cases, inl, inr, All,
}
use esp32_web_terminal.Auth.Sessions.{Session}
use esp32_web_terminal.Auth.Request.{check_request}
use esp32_web_terminal.Config.Store.{Config, Nvs, Draw}
use esp32_web_terminal.Config.Setters.{apply_setting, changed}
use esp32_web_terminal.Wifi.{Mac}
use esp32_web_terminal.Http.{
  Server, Effect, close_socket, Request, Document, Outcome, require_auth, with_sessions,
}
use esp32_web_terminal.Http.Body.{Body, absent, bad, body, read_body}
use esp32_web_terminal.Http.Settings.{
  credentials_only, Draws, post_password, change_password, post_document, post_body,
  handle_config_post,
}
use esp32_web_terminal.Http.Flow.{Flow, going, answered, finished}
use esp32_web_terminal.Http.Settings.Setup.{IsKeyed, post_document-password, post_document-refused}
use esp32_web_terminal.Http.Settings.Password.{post_password-Cases}

abbrev pub IsClose : Effect → Type 0
IsClose (close_socket fd) = Unit {0}
IsClose e = ⊥

-- The settings other than the credentials.
pub record SameSettings (c c' : Config) : Type 0 where
  pub sta_ssid_kept : c'.sta_ssid ≡ c.sta_ssid
  pub sta_pass_kept : c'.sta_pass ≡ c.sta_pass
  pub ap_ssid_kept : c'.ap_ssid ≡ c.ap_ssid
  pub ap_pass_kept : c'.ap_pass ≡ c.ap_pass
  pub baud_rate_kept : c'.baud_rate ≡ c.baud_rate
  pub power_kept : c'.power_on_default ≡ c.power_on_default
  pub name_kept : c'.device_name ≡ c.device_name
  pub server_kept : c'.ntp_server ≡ c.ntp_server
  pub timezone_kept : c'.timezone ≡ c.timezone

-- Only the credentials, the sessions and the WebSocket clients may differ, and nothing is done but
-- to close sockets.
pub record OnlyCredentials {S : Type 0} (s s' : Server S) (es : List Effect) : Type 0 where
  pub settings : SameSettings s.config s'.config
  pub relay_kept : s'.relay ≡ s.relay
  pub wifi_kept : s'.wifi ≡ s.wifi
  pub hosts_kept : s'.auth.hosts ≡ s.auth.hosts
  pub closes : All IsClose es

abbrev pub Locked : {S : Type 0} → Server S → Outcome S → Type 0
Locked s none = Unit {0}
Locked s (some (s', resp, es)) = OnlyCredentials s s' es

abbrev LockedFlow : {S : Type 0} → Server S → Flow S → Type 0
LockedFlow s (going s' es) = OnlyCredentials s s' es
LockedFlow s (answered s' resp es) = OnlyCredentials s s' es

All-map-IsClose : (fds : List ℕ) → All IsClose (map close_socket fds)
All-map-IsClose [] = tt
All-map-IsClose (fd ∷ fds) = (tt, All-map-IsClose fds)

unchanged : {S : Type 0} (s : Server S) → OnlyCredentials s s []
unchanged s = record {
  settings = ground arith;
  relay_kept = refl;
  wifi_kept = refl;
  hosts_kept = refl;
  closes = tt;
}

sessions_only :
    {S : Type 0} (ss : List Session) (s : Server S) → OnlyCredentials s (with_sessions ss s) []
sessions_only ss s = record {
  settings = ground arith;
  relay_kept = refl;
  wifi_kept = refl;
  hosts_kept = refl;
  closes = tt;
}

signed_in-Locked :
    {S : Type 0} (ss : List Session) (s : Server S) (o : Outcome S)
    → Locked (with_sessions ss s) o
    → Locked s o
signed_in-Locked ss s none l = tt
signed_in-Locked ss s (some (s', resp, es)) l = record {
  settings = l.settings;
  relay_kept = l.relay_kept;
  wifi_kept = l.wifi_kept;
  hosts_kept = l.hosts_kept;
  closes = l.closes;
}

module _ (port_max : ℕ) (sha256 : Bytes → Bytes) {S : Type 0} (nvs : Nvs S) (mac : Mac)
    (count : ℕ) where
  change_password-Locked :
      (w : Draw) (user password : Bytes) (s : Server S)
      → LockedFlow s (change_password port_max sha256 nvs mac count w user password s)
  unfolding change_password apply_setting changed
  change_password-Locked w user password s = record {
    settings = ground arith;
    relay_kept = refl;
    wifi_kept = refl;
    hosts_kept = refl;
    closes = All-map-IsClose _;
  }

  post_password-Locked :
      (x : Draws) (d : Document) (s : Server S)
      → LockedFlow s (post_password port_max sha256 nvs mac count x d s)
  post_password-Locked x d s = elim (post_password-Cases port_max sha256 nvs mac count x d s) [
    | inl e ↦ rw (e) (unchanged s)
    | inr (inl (resp, e)) ↦ rw (e) (unchanged s)
    | inr (inr c) ↦ rw (c.is_change) (change_password-Locked x.draw c.user c.new_pass s)
  ]

  post_document-Locked :
      (x : Draws) (d : Document) (s : Server S)
      → IsKeyed d
      → s.config.auth_initialized ≡ false
      → LockedFlow s (post_document port_max sha256 nvs mac count x d s)
  post_document-Locked x d s keyed setup = elim (Bool-cases (credentials_only d.keys false)) [
    | inl only ↦
        rw (post_document-password port_max sha256 nvs mac count x d keyed only s)
          (post_password-Locked x d s)
    | inr other ↦
        rw (post_document-refused port_max sha256 nvs mac count x d s setup other) (unchanged s)
  ]

  finished-Locked : (s : Server S) (f : Flow S) → LockedFlow s f → Locked s (finished f)
  finished-Locked s (going s' es) l = l
  finished-Locked s (answered s' resp es) l = l

  module _ (parse : Bytes → Option Document)
      (keyed : (bytes : Bytes) (d : Document) → parse bytes ≡ some d → IsKeyed d) (x : Draws) where
    post_body-Locked :
        (b : Body) (s : Server S)
        → s.config.auth_initialized ≡ false
        → Locked s (post_body port_max sha256 nvs mac count parse x b s)
    unfolding post_body
    post_body-Locked absent s setup = unchanged s
    post_body-Locked bad s setup = unchanged s
    post_body-Locked (body bytes) s setup = elim (Option-cases (parse bytes)) [
      | inl e ↦ rw (e, post_body) (unchanged s)
      | inr (d, e) ↦
          rw (e, post_body)
            (finished-Locked s _ (post_document-Locked x d s (keyed bytes d e) setup))
    ]

    -- As long as the password was not changed, and where cJSON finds under a key only what stands
    -- in the object under that key, but for its case: whatever handle_config_post is sent, it
    -- keeps every setting but the credentials, the relay, the Wi-Fi manager and the login counters,
    -- and does nothing but close sockets.
    pub handle_config_post-Locked :
        (r : Request) (s : Server S)
        → s.config.auth_initialized ≡ false
        → Locked s (handle_config_post port_max sha256 nvs mac count parse x r s)
    unfolding handle_config_post require_auth
    handle_config_post-Locked r s setup =
        elim (Option-cases (check_request r.now r.headers s.auth.sessions)) [
          | inl e ↦ rw (e, require_auth) tt
          | inr ((true, ss), e) ↦
              rw (e, require_auth)
                (signed_in-Locked ss s _ (
                  post_body-Locked (read_body r.content_len r.segments 512) (with_sessions ss s)
                    setup))
          | inr ((false, ss), e) ↦ rw (e, require_auth) (sessions_only ss s)
        ]
