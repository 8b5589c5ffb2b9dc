-- ===== src/Start/Boot.antt =====
-- main/main.c: app_main, with web_server_init and web_server_start of main/web_server.c. Each
-- ESP_ERROR_CHECK aborts on an error: what was done before it stays done, the device restarts, and the
-- bootloader goes back to the firmware before if the running one was not confirmed.
pub mod Confirm
use esp32_web_terminal.Prelude.{
  ℕ, Bool, true, false, not, ◌&&◌, Option, none, some, List, [], ◌∷◌, ◌++◌, Bytes, if◌then◌else◌,
}
use esp32_web_terminal.Auth.Login.{auth_init}
use esp32_web_terminal.Config.Store.{Nvs, Config, Opened, Draw, blank_config, config_init}
use esp32_web_terminal.Gpio
use esp32_web_terminal.Http.{Server}
use esp32_web_terminal.Http.Certs.{BlobWrites, Loaded, fallback, junk, pair, load_or_save_certs}
use esp32_web_terminal.Serial.{Reply, ok, invalid_arg, failed, Call, init_all}
use esp32_web_terminal.Wifi.{Mac, Answers}
use esp32_web_terminal.Wifi.Manage
use esp32_web_terminal.Wifi.Manage.{Setup}
use esp32_web_terminal.Ws.Clients.{init_clients}

-- What esp_ota_get_state_partition says of the running firmware.
pub data ImageState : Type 0 where
  unknown pending_verify settled : ImageState

-- What the device answers during the start; `inits` and `starts` are what the ports' drivers answer
-- where they return.
pub record Environment : Type 0 where
  pub opened : Opened
  pub draw : Draw
  pub reset_configured : Bool
  pub power_configured : Bool
  pub mac : Mac
  pub wifi_setup : Setup
  pub wifi_answers : Answers
  pub has_timer : Bool
  pub inits : ℕ → Reply
  pub starts : ℕ → Reply
  pub s3 : Bool
  pub mutex_made : Bool
  pub certs_open : Bool
  pub cert_allocated : Bool
  pub key_allocated : Bool
  pub cert_writes : BlobWrites
  pub https_started : Bool
  pub image : ImageState

-- What app_main leaves: the server's state, and the pair that it serves TLS with.
pub record Running (S : Type 0) : Type 0 where
  pub server : Server S
  pub served : Loaded

-- What app_main does, in order: an initialiser that returned ESP_OK, or
-- esp_ota_mark_app_valid_cancel_rollback.
pub data Stage : Type 0 where
  config_ready auth_ready pins_ready wifi_ready ports_ready server_ready https_ready : Stage
  firmware_confirmed : Stage

-- A part of the start: the stages that it passed, also where it aborts, and its result.
abbrev pub Boot : Type 0 → Type 0
Boot A = List Stage × Option A

infixl 5 ◌>>=◌
abbrev pub ◌>>=◌ : {A B : Type 0} → Boot A → (A → Boot B) → Boot B
(passed, none) >>= f = (passed, none)
(passed, some a) >>= f = let (more, r) = f a in (passed ++ more, r)

-- ESP_ERROR_CHECK of an initialiser.
abbrev pub check : {A : Type 0} → Stage → Option A → Boot A
check s none = ([], none)
check s (some a) = (s ∷ [], some a)

-- ESP_ERROR_CHECK(serial_port_init_all())
abbrev pub checked_ports : Reply × List Call → Option (List Call)
checked_ports (ok, calls) = some calls
checked_ports (invalid_arg, calls) = none
checked_ports (failed e, calls) = none

abbrev pub asserted : Bool → Option Bool
asserted b = if b then some b else none

-- `s_cert_pem ? s_cert_pem : server_crt_start`, and so for the key.
abbrev pub served_pair : Bytes → Bytes → Loaded → Loaded
served_pair crt key fallback = pair crt key
served_pair crt key junk = junk
served_pair crt key (pair cert k) = pair cert k

abbrev pub is_pending : ImageState → Bool
is_pending unknown = false
is_pending pending_verify = true
is_pending settled = false

-- esp_ota_mark_app_valid_cancel_rollback, if the firmware waits for it; the end of the start.
abbrev pub confirm : {A : Type 0} → ImageState → A → Boot A
confirm image a = (if is_pending image then firmware_confirmed ∷ [] else [], some a)

module _ (port_max : ℕ) (sha256 : Bytes → Bytes) {S : Type 0} (nvs : Nvs S) (crt key : Bytes) where
  -- load_or_save_certs at the end of web_server_init, web_server_start, and the end of app_main.
  unfoldable pub serve : Environment → Server S → Boot (Running S)
  serve e s = do
    let (loaded, certs') =
        load_or_save_certs nvs crt key e.certs_open e.cert_allocated e.key_allocated e.cert_writes
          s.certs
    started ← check https_ready (asserted e.https_started)
    confirm e.image
        (record { server = record s { certs = certs' }; served = served_pair crt key loaded })

  -- From the namespaces of the configuration and of the certificates.
  unfoldable pub app_main : Environment → S → S → Boot (Running S)
  app_main e store certs = do
    c ←
        check config_ready
          (config_init port_max sha256 nvs e.opened e.draw (blank_config port_max) store)
    auth ← check auth_ready (some auth_init)
    relay ← check pins_ready (Gpio.init c.power_on_default e.reset_configured e.power_configured)
    wifi ← check wifi_ready (Manage.init e.mac e.wifi_setup e.wifi_answers e.has_timer c)
    ports ← check ports_ready (checked_ports (init_all e.inits e.starts c.baud_rate e.s3))
    made ← check server_ready (asserted e.mutex_made)
    serve e (record {
      auth = auth;
      config = c;
      store = store;
      certs = certs;
      relay = relay.1;
      wifi = wifi.0;
      clients = init_clients;
    })
