-- ===== src/Http/Tests.antt =====
-- The server, the requests and the documents on which the theorems on the handlers are applied.
pub mod Requests
pub mod Transfers
use esp32_web_terminal.Prelude.{
  ℕ, ◌≡◌, ◌∷◌, refl, true, false, Bool, Option, none, some, List, [], Bytes, codes, map, replicate,
  if◌then◌else◌, arith, ℤ, Bool-cases, inl, inr, ◌||◌,
}
use esp32_web_terminal.Auth.Cookie.{Headers}
use esp32_web_terminal.Auth.Sessions.{Session, init_sessions, blank_session}
use esp32_web_terminal.Auth.Hosts.{init_hosts}
use esp32_web_terminal.Auth.Request.{session_cookie}
use esp32_web_terminal.Config.Store.{blank_config}
use esp32_web_terminal.Config.Tests.{Writes}
use esp32_web_terminal.Wifi.Manage.{blank_wifi}
use esp32_web_terminal.Ws.Clients.{Client, blank_client}
use esp32_web_terminal.Http.{Server, Request, Document}
use esp32_web_terminal.Http.Settings.Setup.{same_key, has_key, IsKeyed}

-- A session that was last used in second 5, and the WebSocket client that it opened.
abbrev pub live_session : Session
live_session = record { token = codes "x"; last_activity = 5; active = true }

abbrev pub terminal : Client
terminal = record {
  fd = 7;
  active = true;
  port_index = 1;
  token = codes "x";
  last_auth_us = 5000000;
}

-- A board whose password was not changed, and one whose password was.
abbrev pub fresh_server : Server Writes
fresh_server = record {
  auth = record { sessions = live_session ∷ replicate 3 blank_session; hosts = init_hosts };
  config = blank_config 2;
  store = [];
  certs = [];
  relay = record { power_on = false; last_reset_time = 0; last_power_toggle = 0 };
  wifi = blank_wifi true;
  clients = terminal ∷ replicate 3 blank_client;
}

abbrev pub server : Server Writes
server = record fresh_server {
  config = record (blank_config 2) { auth_initialized = true; auth_user = codes "admin" };
}

abbrev pub cookie_of : Bytes → Headers
cookie_of token = record {
  cookie = session_cookie token;
  cookie_read = true;
  token_allocated = true;
  authorization = [];
  authorization_read = false;
  copy_allocated = true;
}

-- A request in second 9 with the cookie of the session, and a body in two segments.
abbrev pub request : Request
request = record {
  headers = cookie_of (codes "x");
  now = 9;
  content_len = 4;
  segments = codes "{" ∷ codes "  }" ∷ [];
}

-- A request with no cookie.
abbrev pub stranger : Request
stranger = record request {
  headers = record (cookie_of (codes "x")) { cookie = []; cookie_read = false };
}

abbrev pub find_text : Bytes → List (Bytes × Bytes) → Option Bytes
find_text k [] = none
find_text k ((key, v) ∷ kvs) = if same_key k (some key) then some v else find_text k kvs

-- An object of strings.
abbrev pub object_of : List (Bytes × Bytes) → Document
object_of kvs = record {
  keys = map (λ (kv : Bytes × Bytes). some kv.0) kvs;
  string_at = λ k. find_text k kvs;
  number_at = λ k. none;
  bool_at = λ k. none;
}

find_text-has_key :
    (k v : Bytes) (kvs : List (Bytes × Bytes))
    → find_text k kvs ≡ some v
    → has_key k (map (λ (kv : Bytes × Bytes). some kv.0) kvs) ≡ true
unfolding has_key
find_text-has_key k v [] e = cc
find_text-has_key k v ((key, w) ∷ kvs) e = ground (arith, find_text-has_key k v kvs)

pub object_of-IsKeyed : (kvs : List (Bytes × Bytes)) → IsKeyed (object_of kvs)
object_of-IsKeyed kvs = record {
  strings = λ k v. find_text-has_key k v kvs;
  numbers = λ k v e. absurd (cc e);
  bools = λ k v e. absurd (cc e);
}

-- A new password, and one that comes with other credentials for the Wi-Fi.
abbrev pub new_password : Document
new_password =
    object_of
      ((codes "new_password", codes "long enough") ∷ (codes "current_password", codes "admin") ∷ [])

abbrev pub smuggled : Document
smuggled = object_of (
    (codes "new_password", codes "long enough")
    ∷ (codes "STA_SSID", codes "evil")
    ∷ (codes "sta_pass", [])
    ∷ [])
