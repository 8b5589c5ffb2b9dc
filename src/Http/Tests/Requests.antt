-- ===== src/Http/Tests/Requests.antt =====
-- The theorems on settings, logins, routes and WebSockets at concrete requests.
use esp32_web_terminal.Prelude.{
  ℕ, ◌-◌, ◌≡◌, refl, ap, ◌∙◌, true, false, Bool, none, some, List, [], ◌∷◌, ◌++◌, Bytes, codes,
  replicate, arith, leb, subst, ◌&&◌,
}
use esp32_web_terminal.Prelude.Text.{str_eq}
use esp32_web_terminal.Auth.Token.{generate_token}
use esp32_web_terminal.Auth.Sessions.{session_timeout_s}
use esp32_web_terminal.Auth.Sessions.Lookup.{find_session}
use esp32_web_terminal.Auth.Sessions.Opening.{SessionsInv}
use esp32_web_terminal.Auth.Hosts.{is_locked_out}
use esp32_web_terminal.Auth.Login.{login}
use esp32_web_terminal.Auth.Request.{session_cookie}
use esp32_web_terminal.Config.Setters.{check_password}
use esp32_web_terminal.Config.Hash.{constant_time_compare, compute_hash_legacy}
use esp32_web_terminal.Config.Tests.{Writes, writes}
use esp32_web_terminal.Wifi.{Mac, Answers}
use esp32_web_terminal.Ws.Clients.Access.{find_client, answer}
use esp32_web_terminal.Http.{Server, Document, Request, set_cookie, json}
use esp32_web_terminal.Http.Login.{
  LoginDraws, attempt_of, login_cookie, login_text, login_answer, login_with,
}
use esp32_web_terminal.Http.Routes.{
  authenticated, Refused, reset, handle_route, handle_route-Refused,
}
use esp32_web_terminal.Http.Settings.{Draws, handle_config_post}
use esp32_web_terminal.Http.Settings.Setup.{IsKeyed}
use esp32_web_terminal.Http.Settings.Locked.{Locked, handle_config_post-Locked}
use esp32_web_terminal.Http.Settings.Credentials.{Guarded, handle_config_post-Guarded}
use esp32_web_terminal.Http.SignIn.{attributes, login_with-authenticated}
use esp32_web_terminal.Http.Certs.{Tls}
use esp32_web_terminal.Http.Socket.{Incoming, text, data_frame, Query, handshake}
use esp32_web_terminal.Http.Socket.Serial.{SentTo, sent, data_frame-SentTo}
use esp32_web_terminal.Auth.Cookie.{token_from_request}
use esp32_web_terminal.Http.Body.{read_body}
use esp32_web_terminal.Http.Socket.Handshake.{RegisteredSome, handshake-Registered}
use esp32_web_terminal.Http.Tests.{
  fresh_server, server, cookie_of, request, object_of-IsKeyed, new_password, smuggled,
}

abbrev mac : Mac
mac = record { fifth = 0xA1; sixth = 0x0F }

abbrev answers : Answers
answers = record {
  mode_set = true;
  ap_config_taken = true;
  sta_config_taken = true;
  started = true;
  connect_accepted = true;
  ap_address = none;
}

-- A digest under which every password has the hash of the blank configuration.
abbrev zeros : Bytes → Bytes
zeros m = replicate 32 0

abbrev draws : Draws
draws = record {
  ap_answers = answers;
  sta_answers = answers;
  disconnect_answers = answers;
  draw = record { salt = replicate 16 5; allocated = true };
  allocated = true;
  junk = replicate 32 0;
}

smuggled-IsKeyed : (bytes : Bytes) (d : Document) → some smuggled ≡ some d → IsKeyed d
smuggled-IsKeyed bytes d e =
    let same : smuggled ≡ d = cc in
    let keyed = object_of-IsKeyed (
      (codes "new_password", codes "long enough")
      ∷ (codes "STA_SSID", codes "evil")
      ∷ (codes "sta_pass", [])
      ∷ []) in
    subst (λ x. IsKeyed x) same keyed

handle_config_post-Locked_example :
    Locked fresh_server
      (handle_config_post 2 zeros writes mac 2 (λ b. some smuggled) draws request fresh_server)
handle_config_post-Locked_example =
    handle_config_post-Locked 2 zeros writes mac 2 (λ b. some smuggled) smuggled-IsKeyed draws
      request fresh_server refl

handle_config_post-Guarded_example :
    Guarded 2 zeros writes mac 2
      (λ b. some new_password)
      draws
      (read_body request.content_len request.segments 512)
      server
      (handle_config_post 2 zeros writes mac 2 (λ b. some new_password) draws request server)
handle_config_post-Guarded_example =
    handle_config_post-Guarded 2 zeros writes mac 2 (λ b. some new_password) draws request server

abbrev no_checks : Tls
no_checks = record { cert_parses = λ b. true; key_parses = λ b. true; matches = λ b c. true }

handle_route-Refused_example : Refused request fresh_server (
    handle_route
      (λ b. none)
      (λ r. [])
      (λ r. [])
      writes
      no_checks
      (reset 4000000)
      request
      fresh_server)
handle_route-Refused_example =
    handle_route-Refused (λ b. none) (λ r. []) (λ r. []) writes no_checks (reset 4000000) request
      fresh_server (not_initialized (authenticated request fresh_server))
  where
    not_initialized : (b : Bool) → (b && false) ≡ false
    not_initialized true = refl
    not_initialized false = refl

abbrev frame : Incoming
frame = record {
  kind = text;
  payload = codes "ls";
  header_read = true;
  allocated = true;
  payload_read = true;
}

data_frame-SentTo_example :
    SentTo
      (answer 9 (find_client 7 server.clients) server.auth.sessions)
      frame
      (sent (data_frame 9 7 frame server).2)
data_frame-SentTo_example = data_frame-SentTo 9 7 frame server

abbrev with_port : Query
with_port = record { token = none; port = some (codes "1") }

handshake-Registered_example :
    RegisteredSome 9 9000000 8
      (token_from_request request.headers)
      with_port
      1
      server
      (handshake 2 9000000 8 (some with_port) request server)
unfolding esp32_web_terminal.Prelude.Digits.scan_int
handshake-Registered_example = handshake-Registered 2 9000000 8 (some with_port) request server

abbrev visit : LoginDraws
visit = record {
  peer = some (codes "10.0.0.2");
  arrived_at = 100;
  checked_at = 100;
  decided_at = 101;
  random = replicate 32 7;
  dup_works = true;
  allocated = true;
  junk = replicate 32 0;
}

abbrev token : Bytes
token = generate_token visit.random

server-SessionsInv : SessionsInv server.auth.sessions
unfolding find_session
server-SessionsInv = record { slots = refl; distinct = ground arith }

none_yet : find_session token server.auth.sessions ≡ none
unfolding find_session generate_token str_eq
none_yet = refl

abbrev checks : Bytes → Bool
checks p = check_password zeros true visit.junk p server.config

accepted :
    (login (codes "admin") checks (attempt_of visit (codes "admin") (codes "pw")) server.auth).0
    ≡ some token
unfolding login is_locked_out str_eq check_password constant_time_compare compute_hash_legacy
accepted = refl

abbrev after_login : Server Writes
after_login = record server {
  auth =
      (login (codes "admin") checks (attempt_of visit (codes "admin") (codes "pw")) server.auth).1;
}

abbrev texts : Bytes
texts = login_text true token

logged_in :
    login_with zeros visit (codes "admin") (codes "pw") server
    ≡ some (after_login, json texts, set_cookie (login_cookie token) ∷ [])
unfolding login_with
logged_in =
    ap (λ o. login_answer zeros o after_login.auth server) accepted ∙ unfold login_answer in refl

abbrev back : Request
back = record request { headers = cookie_of token; now = 3000 }

login_with-authenticated_example :
    ((set_cookie (login_cookie token) ∷ []) ≡ set_cookie (session_cookie token ++ attributes) ∷ [])
    × (authenticated back after_login ≡ leb (3000 - 101) session_timeout_s)
login_with-authenticated_example =
    login_with-authenticated zeros visit (codes "admin") (codes "pw") server after_login texts
      (set_cookie (login_cookie token) ∷ []) back server-SessionsInv refl none_yet logged_in refl
      refl
