-- ===== src/Http/Flow.antt =====
-- How handle_config_post of main/web_server.c goes on from one setting to the next.
use esp32_web_terminal.Prelude.{ℕ, Option, none, some, List, [], ◌++◌, Bytes, map}
use esp32_web_terminal.Config.Store.{Config}
use esp32_web_terminal.Wifi
use esp32_web_terminal.Wifi.{Mac, Answers}
use esp32_web_terminal.Http.{Server, Effect, wifi_call, Response, error, Outcome, ok_response}

-- How far the handler came: it goes on, or it has answered.
pub data Flow (S : Type 0) : Type 0 where
  going : Server S → List Effect → Flow S
  answered : Server S → Response → List Effect → Flow S

abbrev pub after : {S : Type 0} → List Effect → Flow S → Flow S
after done (going s es) = going s (done ++ es)
after done (answered s resp es) = answered s resp (done ++ es)

infixl 5 ◌>>=◌
abbrev pub ◌>>=◌ : {S : Type 0} → Flow S → (Server S → Flow S) → Flow S
going s es >>= f = after es (f s)
answered s resp es >>= f = answered s resp es

abbrev pub refuse : {S : Type 0} → Server S → ℕ → Bytes → Flow S
refuse s status message = answered s (error status message) []

abbrev pub both : Option Bytes → Option Bytes → Option (Bytes × Bytes)
both (some a) (some b) = some (a, b)
both (some a) none = none
both none b = none

-- What a call of the Wi-Fi manager leaves, and the refusal where it fails.
abbrev pub after_wifi :
    {S : Type 0}
    → Server S
    → Bytes
    → Wifi.Reply × Wifi.Wifi × (Config × S) × List Wifi.Call
    → Flow S
after_wifi s message (reply, w, stored, calls) =
    let s' = record s { wifi = w; config = stored.0; store = stored.1 } in
    elim reply [
      | Wifi.ok ↦ going s' (map wifi_call calls)
      | _ ↦ answered s' (error 400 message) (map wifi_call calls)
    ]

abbrev pub finished : {S : Type 0} → Flow S → Outcome S
finished (going s es) = some (s, ok_response, es)
finished (answered s resp es) = some (s, resp, es)
