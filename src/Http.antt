-- ===== src/Http.antt =====
-- main/web_server.c: the state that the HTTP handlers work on, what they answer and do, and the two
-- guards in front of them. All handlers run on the one httpd task.
pub mod Body
pub mod Certs
pub mod Flow
pub mod Handlers
pub mod Login
pub mod Pages
pub mod Routes
pub mod Settings
pub mod SignIn
pub mod Tests
pub mod Socket
pub mod Upload
use esp32_web_terminal.Prelude.{
  ℕ, Bool, true, false, not, Option, none, some, List, [], ◌∷◌, ◌++◌, Bytes, codes, if◌then◌else◌,
  ℤ,
}
use esp32_web_terminal.Auth.Sessions.{Session}
use esp32_web_terminal.Auth.Hosts.{Host}
use esp32_web_terminal.Auth.Login.{Auth}
use esp32_web_terminal.Auth.Cookie.{Headers}
use esp32_web_terminal.Auth.Request.{check_request}
use esp32_web_terminal.Config.Store.{Config}
use esp32_web_terminal.Gpio
use esp32_web_terminal.Gpio.{Status}
use esp32_web_terminal.Wifi
use esp32_web_terminal.Ws.Clients.{Client}

-- The state of the components that the handlers use; `store` and `certs` are the namespaces of NVS
-- for the configuration and for the TLS certificates.
pub record Server (S : Type 0) : Type 0 where
  pub auth : Auth
  pub config : Config
  pub store : S
  pub certs : S
  pub relay : Status
  pub wifi : Wifi.Wifi
  pub clients : List Client

-- What a handler does besides: calls of the drivers, frames to a serial port, close frames to
-- sockets, the cookie that it sets, the firmware, and the restart.
pub data Effect : Type 0 where
  pin : Gpio.PinCall → Effect
  wifi_call : Wifi.Call → Effect
  serial_send : ℕ → Bytes → Effect
  serial_baud : ℕ → ℕ → Effect
  close_socket : ℕ → Effect
  set_timezone : Bytes → Effect
  ota_begin ota_abort ota_end ota_set_boot restart check_release : Effect
  ota_write : Bytes → Effect
  apply_release set_cookie : Bytes → Effect

-- httpd_resp_send with a JSON text, or send_json_error with its status and message.
pub data Response : Type 0 where
  json : Bytes → Response
  error : ℕ → Bytes → Response

-- A request, with the time in seconds at which auth.c reads the clock, and the segments in which
-- its body arrives.
pub record Request : Type 0 where
  pub headers : Headers
  pub now : ℕ
  pub content_len : ℕ
  pub segments : List Bytes

-- What cJSON answers about the object of a body: its keys in order (NULL for one without), and the
-- string, number or boolean that cJSON_GetObjectItem finds, a number by its integer part.
pub record Document : Type 0 where
  pub keys : List (Option Bytes)
  pub string_at : Bytes → Option Bytes
  pub number_at : Bytes → Option ℤ
  pub bool_at : Bytes → Option Bool

-- The outcome of a handler; none where the search of the cookie read past the header.
abbrev pub Outcome : Type 0 → Type 0
Outcome S = Option (Server S × Response × List Effect)

abbrev pub ok_response : Response
ok_response = json (codes "{\"ok\":true}")

abbrev pub setup_locked : Response
setup_locked = error 403 (codes "Change the default password in Settings before using this")

module _ {S : Type 0} where
  abbrev pub with_sessions : List Session → Server S → Server S
  with_sessions ss s = record s { auth = record { sessions = ss; hosts = s.auth.hosts } }

  -- `if (!require_auth(req)) return ESP_OK;`
  unfoldable pub require_auth : Request → Server S → (Server S → Outcome S) → Outcome S
  require_auth r s handler = elim (check_request r.now r.headers s.auth.sessions) [
    | none ↦ none
    | some (authed, ss) ↦
        if authed
        then handler (with_sessions ss s)
        else some (with_sessions ss s, error 401 (codes "Authentication required"), [])
  ]

  -- `if (!require_password_changed(req)) return ESP_OK;`
  unfoldable pub require_password_changed : Server S → (Server S → Outcome S) → Outcome S
  require_password_changed s handler =
      if s.config.auth_initialized then handler s else some (s, setup_locked, [])

  -- The two guards that most handlers begin with.
  unfoldable pub gated : Request → Server S → (Server S → Outcome S) → Outcome S
  unfolding require_auth require_password_changed
  gated r s handler = require_auth r s (λ s'. require_password_changed s' handler)

  abbrev pub answer : Server S → Response → Outcome S
  answer s resp = some (s, resp, [])

  abbrev pub bad_request : Server S → Bytes → Outcome S
  bad_request s message = answer s (error 400 message)
