-- ===== src/Http/Routes.antt =====
-- main/web_server.c: the routes of web_server_start whose handlers begin with both guards, and what
-- the guards keep out.
use esp32_web_terminal.Prelude.{
  ℕ, ◌≡◌, refl, Bool, true, false, ◌&&◌, Option, none, some, List, [], Bytes, codes, Option-cases,
  inl, inr, ◌⊎◌, subst, if◌then◌else◌,
}
use esp32_web_terminal.Auth.Sessions.{Session}
use esp32_web_terminal.Auth.Cookie.{overread, exhausted, token_from_request}
use esp32_web_terminal.Auth.Request.{check_request, OthersKept, Checked, check_request-Checked}
use esp32_web_terminal.Config.Store.{Nvs}
use esp32_web_terminal.Ota
use esp32_web_terminal.Wifi.{Mode}
use esp32_web_terminal.Wifi.Scan.{Scanned, ScanResult}
use esp32_web_terminal.Http.{
  Server, Request, Document, error, Outcome, gated, require_auth, require_password_changed,
  setup_locked, with_sessions,
}
use esp32_web_terminal.Http.Certs.{Tls, TlsAnswers, handle_tls_upload, tls_body}
use esp32_web_terminal.Http.Handlers.{
  handle_reset, handle_power, handle_wifi_scan, handle_ota_check, handle_ota_github,
  handle_esp_reboot, on_pins, reset_reply, power_body, scan_body, release_body, install_body,
  reboot_body,
}
use esp32_web_terminal.Http.Body.{read_body}
use esp32_web_terminal.Gpio
use esp32_web_terminal.Http.Upload.{OtaAnswers, Recv, handle_ota, ota_body}

-- A route, with what its handler draws from outside.
pub data Route : Type 0 where
  reset power : ℕ → Route
  wifi_scan : Mode → Scanned → Route
  ota : OtaAnswers → List Recv → Route
  tls : TlsAnswers → Route
  ota_check : Ota.Reply × Ota.CheckResult → Route
  ota_github : Ota.Reply × Ota.CheckResult → Ota.Reply → Route
  reboot : Route

-- Whether a request carries the token of a live session.
abbrev pub authenticated : {S : Type 0} → Request → Server S → Bool
authenticated r s = elim (check_request r.now r.headers s.auth.sessions) [
  | none ↦ false
  | some (authed, ss) ↦ authed
]

-- The request is refused: with 401 where it carries no token of a live session, and otherwise because
-- of the default password. Nothing happened, and no session changed but that of its token. Only where
-- the header is read past its end there is no answer.
abbrev pub Refused : {S : Type 0} → Request → Server S → Outcome S → Type 0
Refused r s none =
    (token_from_request r.headers ≡ overread) ⊎ (token_from_request r.headers ≡ exhausted)
Refused r s (some (s', resp, es)) =
    ((ss : List Session) × (s' ≡ with_sessions ss s)
      × OthersKept (token_from_request r.headers) s.auth.sessions ss)
    × (resp
        ≡ (if authenticated r s then setup_locked else error 401 (codes "Authentication required")))
    × (es ≡ [])

gated-Refused :
    {S : Type 0} (r : Request) (s : Server S) (handler : Server S → Outcome S)
    → (authenticated r s && s.config.auth_initialized) ≡ false
    → Refused r s (gated r s handler)
unfolding gated require_auth require_password_changed
gated-Refused r s handler shut =
    let known = check_request-Checked r.now r.headers s.auth.sessions in
    let checked =
      λ (o : Option (Bool × List Session)) (e : check_request r.now r.headers s.auth.sessions ≡ o).
        subst (λ p. Checked (token_from_request r.headers) s.auth.sessions p) e known in
    elim (Option-cases (check_request r.now r.headers s.auth.sessions)) [
      | inl e ↦ rw (e, require_auth) (checked none e)
      | inr ((false, ss), e) ↦
          let outside : authenticated r s ≡ false = rw (e, authenticated) refl in
          rw (e, require_auth) ((ss, refl, checked (some (false, ss)) e), rw (outside) refl, refl)
      | inr ((true, ss), e) ↦
          let setup : s.config.auth_initialized ≡ false = (rw (e, authenticated) at shut) in
          let inside : authenticated r s ≡ true = rw (e, authenticated) refl in
          rw (e, require_auth, setup)
            ((ss, refl, checked (some (true, ss)) e), rw (inside) refl, refl)
    ]

module _ (parse : Bytes → Option Document) (show_scan : List ScanResult → Bytes)
    (show_release : Ota.CheckResult → Bytes) {S : Type 0} (nvs : Nvs S) (tls_checks : Tls) where
  -- The handler of a route.
  unfoldable pub handle_route : Route → Request → Server S → Outcome S
  unfolding handle_reset handle_power handle_wifi_scan handle_ota handle_tls_upload handle_ota_check
      handle_ota_github handle_esp_reboot
  handle_route (reset now) r s = handle_reset now r s
  handle_route (power now) r s = handle_power parse now r s
  handle_route (wifi_scan mode scanned) r s = handle_wifi_scan show_scan mode scanned r s
  handle_route (ota a rs) r s = handle_ota a rs r s
  handle_route (tls a) r s = handle_tls_upload nvs tls_checks parse a r s
  handle_route (ota_check checked) r s = handle_ota_check show_release checked r s
  handle_route (ota_github checked installed) r s = handle_ota_github checked installed r s
  handle_route reboot r s = handle_esp_reboot r s

  -- Without a live session, or before the password was changed, no request to reset or switch the
  -- board, to scan, to upload, check for or install firmware, to replace the certificates or to
  -- restart does anything: it is refused with the error that says why, and no session changes but that
  -- of the token that it carries. It gets no answer only where its header is read past the end.
  pub handle_route-Refused :
      (q : Route) (r : Request) (s : Server S)
      → (authenticated r s && s.config.auth_initialized) ≡ false
      → Refused r s (handle_route q r s)
  unfolding handle_route
  handle_route-Refused (reset now) r s shut =
      gated-Refused r s (on_pins Gpio.reset now reset_reply) shut
  handle_route-Refused (power now) r s shut =
      gated-Refused r s (power_body parse now (read_body r.content_len r.segments 128)) shut
  handle_route-Refused (wifi_scan mode scanned) r s shut =
      gated-Refused r s (scan_body show_scan mode scanned) shut
  handle_route-Refused (ota a rs) r s shut = gated-Refused r s (ota_body a rs r.content_len) shut
  handle_route-Refused (tls a) r s shut = gated-Refused r s (tls_body nvs tls_checks parse a r) shut
  handle_route-Refused (ota_check checked) r s shut =
      gated-Refused r s (release_body show_release checked) shut
  handle_route-Refused (ota_github checked installed) r s shut =
      gated-Refused r s (install_body checked installed) shut
  handle_route-Refused reboot r s shut = gated-Refused r s reboot_body shut
