-- ===== src/Start/Boot/Confirm.antt =====
-- When the start of main/main.c comes through, and when it confirms a new firmware.
use esp32_web_terminal.Prelude.{
  ℕ, ◌≡◌, refl, sym, ◌∙◌, ap, Bool, true, false, ◌&&◌, Option, none, some, List, [], ◌∷◌, Bytes,
  arith, if◌then◌else◌,
}
use esp32_web_terminal.Auth.Login.{auth_init}
use esp32_web_terminal.Config.Store.{Nvs, Config, Opened, opened, not_found, config_init}
use esp32_web_terminal.Gpio
use esp32_web_terminal.Http.{Server}
use esp32_web_terminal.Serial.{Reply, ok, invalid_arg, failed, Call, init_all, uart, bring_up}
use esp32_web_terminal.Serial.Dispatch.{init_all-uart}
use esp32_web_terminal.Wifi.{Mac, Answers}
use esp32_web_terminal.Wifi.Manage
use esp32_web_terminal.Wifi.Manage.{Setup, is_set_up}
use esp32_web_terminal.Ws.Clients.{init_clients}
use esp32_web_terminal.Start.Boot.{
  Environment, ImageState, Stage, config_ready, auth_ready, pins_ready, wifi_ready, ports_ready,
  server_ready, https_ready, firmware_confirmed, Boot, check, ◌>>=◌, checked_ports, asserted,
  is_pending, serve, app_main,
}

abbrev opens : Opened → Bool
opens opened = true
opens not_found = true
opens Opened.failed = false

abbrev is_ok : Reply → Bool
is_ok ok = true
is_ok invalid_arg = false
is_ok (failed e) = false

-- The checks of app_main in their order, with the answer to each. Neither a USB port nor the network
-- counts.
abbrev pub checks : Environment → List (Stage × Bool)
checks e =
    (config_ready, opens e.opened)
    ∷ (auth_ready, true)
    ∷ (pins_ready, e.reset_configured && e.power_configured)
    ∷ (wifi_ready, is_set_up e.wifi_setup && (e.wifi_answers.mode_set && e.wifi_answers.started))
    ∷ (ports_ready, is_ok (e.inits 0) && is_ok (e.starts 0))
    ∷ (server_ready, e.mutex_made)
    ∷ (https_ready, e.https_started)
    ∷ []

-- The stages of some checks up to the first that fails, and `last` where all pass.
unfoldable pub reached : List (Stage × Bool) → List Stage → List Stage
reached [] last = last
reached ((s, passed) ∷ cs) last = if passed then s ∷ reached cs last else []

unfoldable pub all_pass : List (Stage × Bool) → Bool
all_pass [] = true
all_pass ((s, passed) ∷ cs) = passed && all_pass cs

abbrev pub confirmation : ImageState → List Stage
confirmation image = if is_pending image then firmware_confirmed ∷ [] else []

-- Whether there is a result.
abbrev pub has_result : {A : Type 0} → Option A → Bool
has_result none = false
has_result (some a) = true

-- A start that passes the stages of some checks up to the first that fails, then `last`, and that
-- has a result where all pass.
pub record Follows {A : Type 0} (m : Boot A) (cs : List (Stage × Bool)) (last : List Stage)
    : Type 0 where
  pub stages : m.0 ≡ reached cs last
  pub returns : has_result m.1 ≡ all_pass cs

check-Follows :
    {A B : Type 0} (s : Stage) (m : Option A) (f : A → Boot B) (up : Bool)
    (cs : List (Stage × Bool)) (last : List Stage)
    → has_result m ≡ up
    → ((a : A) → Follows (f a) cs last)
    → Follows (check s m >>= f) ((s, up) ∷ cs) last
unfolding reached all_pass
check-Follows s none f up cs last e h = rw (sym e) (record { stages = refl; returns = refl })
check-Follows s (some a) f up cs last e h =
    rw (sym e) (record { stages = ap (λ ss. s ∷ ss) (h a).stages; returns = (h a).returns })

module _ (port_max : ℕ) (sha256 : Bytes → Bytes) {S : Type 0} (nvs : Nvs S) where
  config_up :
      (e : Environment) (b : Config) (store : S)
      → has_result (config_init port_max sha256 nvs e.opened e.draw b store) ≡ opens e.opened
  unfolding config_init
  config_up e b store = ground arith

relay_up : (on rc pc : Bool) → has_result (Gpio.init on rc pc) ≡ (rc && pc)
unfolding Gpio.init
relay_up on rc pc = ground arith

wifi_up :
    (mac : Mac) (p : Setup) (a : Answers) (has_timer : Bool) (c : Config)
    → has_result (Manage.init mac p a has_timer c) ≡ (is_set_up p && (a.mode_set && a.started))
unfolding Manage.init
wifi_up mac p a has_timer c = ground arith

checked_ok : (p : Reply × List Call) → has_result (checked_ports p) ≡ is_ok p.0
checked_ok (ok, calls) = refl
checked_ok (invalid_arg, calls) = refl
checked_ok (failed e, calls) = refl

is_ok-bring_up :
    (init start : Reply) (i baud : ℕ)
    → is_ok (bring_up init start uart i baud).0 ≡ (is_ok init && is_ok start)
unfolding bring_up
is_ok-bring_up ok start i baud = refl
is_ok-bring_up invalid_arg start i baud = refl
is_ok-bring_up (failed e) start i baud = refl

ports_up :
    (inits starts : ℕ → Reply) (bauds : List ℕ) (s3 : Bool)
    → has_result (checked_ports (init_all inits starts bauds s3))
      ≡ (is_ok (inits 0) && is_ok (starts 0))
ports_up inits starts bauds s3 =
    checked_ok (init_all inits starts bauds s3)
    ∙ ap is_ok (init_all-uart inits starts bauds s3)
    ∙ is_ok-bring_up (inits 0) (starts 0) 0 _

asserted_up : (b : Bool) → has_result (asserted b) ≡ b
asserted_up true = refl
asserted_up false = refl

module _ (port_max : ℕ) (sha256 : Bytes → Bytes) {S : Type 0} (nvs : Nvs S) (crt key : Bytes) where
  serve-Follows :
      (e : Environment) (s : Server S)
      → Follows
          (serve port_max sha256 nvs crt key e s)
          ((https_ready, e.https_started) ∷ [])
          (confirmation e.image)
  unfolding serve reached all_pass
  serve-Follows e s = ground arith

  -- The start runs its checks in their order and stops at the first that fails; after the last of
  -- them, and only then, it confirms the firmware, if that waits for it; and it comes through exactly
  -- if all of them pass: those of the configuration, authentication, the pins, Wi-Fi with the calls
  -- before its hostname, the UART, the server's mutex and HTTPS, whatever the USB port does.
  pub app_main-Follows :
      (e : Environment) (store certs : S)
      → Follows
          (app_main port_max sha256 nvs crt key e store certs)
          (checks e)
          (confirmation e.image)
  unfolding app_main
  app_main-Follows e store certs =
      check-Follows config_ready _ _ _ _ _ (config_up port_max sha256 nvs e _ store) (λ c.
        check-Follows auth_ready (some auth_init) _ _ _ _ refl (λ auth.
          check-Follows pins_ready _ _ _ _ _
            (relay_up c.power_on_default e.reset_configured e.power_configured)
            (λ relay.
              check-Follows wifi_ready _ _ _ _ _
                (wifi_up e.mac e.wifi_setup e.wifi_answers e.has_timer c)
                (λ wifi.
                  check-Follows ports_ready _ _ _ _ _ (ports_up e.inits e.starts c.baud_rate e.s3)
                    (λ ports.
                      check-Follows server_ready _ _ _ _ _ (asserted_up e.mutex_made) (λ made.
                        serve-Follows e (record {
                          auth = auth;
                          config = c;
                          store = store;
                          certs = certs;
                          relay = relay.1;
                          wifi = wifi.0;
                          clients = init_clients;
                        })))))))
