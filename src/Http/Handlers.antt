-- ===== src/Http/Handlers.antt =====
-- main/web_server.c: the handlers of the API, but for the login, the settings, the uploads and the
-- WebSocket.
use esp32_web_terminal.Prelude.{
  ℕ, Bool, true, false, not, Option, none, some, List, [], ◌∷◌, ◌++◌, Bytes, codes, if◌then◌else◌,
  take, map,
}
use esp32_web_terminal.Auth.Sessions.{validate_session, logout}
use esp32_web_terminal.Auth.Cookie.{
  CookieScan, value, absent, overread, exhausted, token_from_request,
}
use esp32_web_terminal.Gpio
use esp32_web_terminal.Gpio.{Status}
use esp32_web_terminal.Ota
use esp32_web_terminal.Ota.{CheckResult}
use esp32_web_terminal.Wifi.{Mode}
use esp32_web_terminal.Wifi.Scan
use esp32_web_terminal.Wifi.Scan.{Scanned, scan_begin, scan_end}
use esp32_web_terminal.Http.{
  Server, pin, wifi_call, restart, apply_release, check_release, set_cookie, Response, json, error,
  Request, Document, Outcome, ok_response, with_sessions, require_password_changed, gated,
  bad_request, answer,
}
use esp32_web_terminal.Http.Body.{Body, read_body}

-- What handle_reset and handle_power answer.
abbrev pub reset_reply : Gpio.Reply → Bool → Response
reset_reply Gpio.ok on = ok_response
reset_reply Gpio.invalid_state on = error 400 (codes "Reset failed")

abbrev pub power_reply : Gpio.Reply → Bool → Response
power_reply Gpio.ok on =
    json (codes "{\"ok\":true,\"power_on\":" ++ (if on then codes "true}" else codes "false}"))
power_reply Gpio.invalid_state on = error 429 (codes "Power change too fast")

module _ {S : Type 0} where
  -- handle_logout; the cookie is cleared in any case.
  abbrev pub logged_out : Option Bytes → Server S → Outcome S
  logged_out token s = some (
    with_sessions (logout token s.auth.sessions) s,
    ok_response,
    set_cookie (codes "session=; Path=/; Max-Age=0; HttpOnly; Secure; SameSite=Strict") ∷ [],
  )

  unfoldable pub logout_scan : CookieScan → Server S → Outcome S
  logout_scan (value token) s = logged_out (some token) s
  logout_scan absent s = logged_out none s
  logout_scan overread s = none
  logout_scan exhausted s = none

  unfoldable pub handle_logout : Request → Server S → Outcome S
  unfolding logout_scan token_from_request
  handle_logout r s = logout_scan (token_from_request r.headers) s

  -- handle_get_token, with the token that the request carries.
  unfoldable pub token_scan : ℕ → CookieScan → Server S → Outcome S
  token_scan now (value token) s =
      let checked = validate_session now (some token) s.auth.sessions in
      answer (with_sessions checked.1 s) (
        if checked.0
        then json (take 127 (codes "{\"token\":\"" ++ (token ++ codes "\"}")))
        else error 401 (codes "Unauthorized"))
  token_scan now absent s = answer s (error 401 (codes "Unauthorized"))
  token_scan now overread s = none
  token_scan now exhausted s = none

  unfoldable pub handle_get_token : Request → Server S → Outcome S
  unfolding require_password_changed token_scan token_from_request
  handle_get_token r s =
      require_password_changed s (token_scan r.now (token_from_request r.headers))

  -- A request on the pins, at the time that it reads the clock.
  abbrev pub on_pins : Gpio.Request → ℕ → (Gpio.Reply → Bool → Response) → Server S → Outcome S
  on_pins q now reply s =
      let (result, relay, calls) = Gpio.handle q now s.relay in
      some (record s { relay = relay }, reply result relay.power_on, map pin calls)

  unfoldable pub handle_reset : ℕ → Request → Server S → Outcome S
  unfolding gated
  handle_reset now r s = gated r s (on_pins Gpio.reset now reset_reply)

  unfoldable pub power_document : ℕ → Option Bool → Server S → Outcome S
  power_document now none s = bad_request s (codes "power must be a boolean")
  power_document now (some true) s = on_pins Gpio.power_on now power_reply s
  power_document now (some false) s = on_pins Gpio.power_off now power_reply s

  unfoldable pub power_body : (Bytes → Option Document) → ℕ → Body → Server S → Outcome S
  unfolding power_document
  power_body parse now Body.absent s = on_pins Gpio.power_toggle now power_reply s
  power_body parse now Body.bad s = bad_request s (codes "Invalid request size")
  power_body parse now (Body.body bytes) s = elim (parse bytes) [
    | none ↦ bad_request s (codes "Invalid JSON")
    | some d ↦ power_document now (d.bool_at (codes "power")) s
  ]

  unfoldable pub handle_power : (Bytes → Option Document) → ℕ → Request → Server S → Outcome S
  unfolding gated power_body read_body
  handle_power parse now r s =
      gated r s (power_body parse now (read_body r.content_len r.segments 128))

  -- handle_wifi_scan, with the mode of the driver and what the scan ends with; the text of the
  -- results is `show`.
  unfoldable pub scan_body : (List Scan.ScanResult → Bytes) → Mode → Scanned → Server S → Outcome S
  scan_body show orig_mode scanned s =
      let (w, begun) = scan_begin orig_mode s.wifi in
      let (results, w', ended) = scan_end orig_mode s.config scanned w in
      some (
        record s { wifi = w' },
        elim results [ none ↦ error 500 (codes "Scan failed") | some found ↦ json (show found) ],
        map wifi_call (begun ++ ended),
      )

  unfoldable pub handle_wifi_scan :
      (List Scan.ScanResult → Bytes) → Mode → Scanned → Request → Server S → Outcome S
  unfolding gated scan_body
  handle_wifi_scan show orig_mode scanned r s = gated r s (scan_body show orig_mode scanned)

  abbrev pub reboot_body : Server S → Outcome S
  reboot_body s = some (s, json (codes "{\"ok\":true,\"message\":\"Rebooting...\"}"), restart ∷ [])

  unfoldable pub handle_esp_reboot : Request → Server S → Outcome S
  unfolding gated
  handle_esp_reboot r s = gated r s reboot_body

  -- handle_ota_check, with the result of ota_github_check; the text of the result is `show`.
  unfoldable pub release_body :
      (CheckResult → Bytes) → Ota.Reply × CheckResult → Server S → Outcome S
  release_body show (Ota.ok, c) s = some (s, json (show c), check_release ∷ [])
  release_body show (Ota.no_mem, c) s =
      some (s, error 500 (codes "Failed to check for updates"), check_release ∷ [])
  release_body show (Ota.failed, c) s =
      some (s, error 500 (codes "Failed to check for updates"), check_release ∷ [])

  unfoldable pub handle_ota_check :
      (CheckResult → Bytes) → Ota.Reply × CheckResult → Request → Server S → Outcome S
  unfolding gated release_body
  handle_ota_check show checked r s = gated r s (release_body show checked)

  -- handle_ota_github, with the results of ota_github_check and of ota_github_apply.
  unfoldable pub install_body : Ota.Reply × CheckResult → Ota.Reply → Server S → Outcome S
  install_body (Ota.no_mem, c) installed s =
      some (s, error 500 (codes "Failed to check for updates"), check_release ∷ [])
  install_body (Ota.failed, c) installed s =
      some (s, error 500 (codes "Failed to check for updates"), check_release ∷ [])
  install_body (Ota.ok, c) installed s =
      if not c.update_available
      then some (s, error 400 (codes "No update available"), check_release ∷ [])
      else elim installed [
        | Ota.ok ↦ some (
          s,
          json (codes "{\"ok\":true,\"message\":\"Update complete, rebooting...\"}"),
          check_release ∷ apply_release c.asset_url ∷ restart ∷ [],
        )
        | _ ↦ some (
          s,
          error 500 (codes "OTA update failed"),
          check_release ∷ apply_release c.asset_url ∷ [],
        )
      ]

  unfoldable pub handle_ota_github :
      Ota.Reply × CheckResult → Ota.Reply → Request → Server S → Outcome S
  unfolding gated install_body
  handle_ota_github checked installed r s = gated r s (install_body checked installed)
