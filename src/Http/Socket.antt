-- ===== src/Http/Socket.antt =====
-- main/web_server.c: handle_ws, the handshake of a WebSocket and its data frames, and on_close. What
-- httpd parses of the URL and of a frame is an argument.
pub mod Serial
pub mod Handshake
use esp32_web_terminal.Prelude.{
  ℕ, ◌-◌, Bool, true, false, not, ◌&&◌, ◌||◌, Option, none, some, List, [], ◌∷◌, ◌++◌, Bytes, ltb,
  ◌==◌, if◌then◌else◌, length, take, map, ℤ, pos, negsuc,
}
use esp32_web_terminal.Prelude.Digits.{scan_int}
use esp32_web_terminal.Auth.Sessions.{Session, validate_session}
use esp32_web_terminal.Auth.Cookie.{
  CookieScan, value, absent, overread, exhausted, token_from_request,
}
use esp32_web_terminal.Auth.Token.{token_size}
use esp32_web_terminal.Ws.Clients.{Client, copy_token, add_client, remove_client, touch_client}
use esp32_web_terminal.Http.{Server, Effect, serial_send, close_socket, Request, with_sessions}

-- What a handler of the WebSocket returns: httpd closes the socket on an error.
pub data Reply : Type 0 where
  ok fail no_mem : Reply

abbrev pub Outcome : Type 0 → Type 0
Outcome S = Option (Server S × Reply × List Effect)

-- The query string, where it can be read: the values of "token" and of "port".
pub record Query : Type 0 where
  pub token : Option Bytes
  pub port : Option Bytes

-- Whether a token was accepted so far, with the copy that the connection keeps.
pub record Authed : Type 0 where
  pub authed : Bool
  pub token : Bytes
  pub sessions : List Session

-- The token of the cookie or the header; none where the search of the cookie read past the header.
unfoldable pub header_auth : ℕ → CookieScan → List Session → Option Authed
header_auth now (value token) ss =
    let checked = validate_session now (some token) ss in
    some (record {
      authed = checked.0;
      token = if checked.0 then copy_token token_size token else [];
      sessions = checked.1;
    })
header_auth now absent ss = some (record { authed = false; token = []; sessions = ss })
header_auth now overread ss = none
header_auth now exhausted ss = none

-- The token of the query, where none was accepted.
unfoldable pub query_auth : ℕ → Option Bytes → Authed → Authed
query_auth now none a = a
query_auth now (some qtok) a =
    let checked = validate_session now (some qtok) a.sessions in
    if a.authed then a else record {
      authed = checked.0;
      token = if checked.0 then copy_token token_size qtok else a.token;
      sessions = checked.1;
    }

-- atoi
abbrev pub atoi : Bytes → ℤ
atoi s = elim (scan_int s) [ none ↦ pos 0 | some (n, rest) ↦ n ]

-- `p >= 0 && p < serial_port_count()`, and otherwise port 0.
abbrev pub port_in : ℕ → ℤ → ℕ
port_in count (pos p) = if ltb p count then p else 0
port_in count (negsuc n) = 0

abbrev pub port_of : ℕ → Option Bytes → ℕ
port_of count none = 0
port_of count (some text) = port_in count (atoi text)

abbrev pub no_query : Query
no_query = record { token = none; port = none }

abbrev pub read_query : Option Query → Query
read_query none = no_query
read_query (some q) = q

-- The end of the handshake: the client is registered, or the socket is closed.
unfoldable pub register :
    {S : Type 0} → ℕ → ℕ → ℕ → Authed → Server S → Server S × Reply × List Effect
register now_us fd port a s =
    let s' = with_sessions a.sessions s in
    let (added, clients) = add_client now_us fd port a.token s.clients in
    if not a.authed || not s.config.auth_initialized
    then (s', fail, [])
    else if added
    then (record s' { clients = clients }, ok, [])
    else (s', fail, [])

module _ {S : Type 0} (count : ℕ) where
  -- The handshake of a request, with the time of esp_timer_get_time.
  unfoldable pub handshake : ℕ → ℕ → Option Query → Request → Server S → Outcome S
  unfolding header_auth query_auth register token_from_request
  handshake now_us fd query r s =
      elim (header_auth r.now (token_from_request r.headers) s.auth.sessions) [
        | none ↦ none
        | some a ↦ some (
            register now_us fd (port_of count (read_query query).port)
              (query_auth r.now (read_query query).token a) s)
      ]

-- The types of frame that the handler tells apart.
pub data FrameKind : Type 0 where
  text binary close other : FrameKind

-- A data frame as httpd_ws_recv_frame gives it: whether its length and its payload can be read, and
-- whether the payload can be allocated.
pub record Incoming : Type 0 where
  pub kind : FrameKind
  pub payload : Bytes
  pub header_read : Bool
  pub allocated : Bool
  pub payload_read : Bool

abbrev pub max_frame : ℕ
max_frame = 8192

module _ {S : Type 0} where
  -- What becomes of a frame that was read.
  unfoldable pub take_frame : ℕ → ℕ → FrameKind → Bytes → Server S → Server S × Reply × List Effect
  take_frame fd port text payload s = (s, ok, serial_send port payload ∷ [])
  take_frame fd port binary payload s = (s, ok, serial_send port payload ∷ [])
  take_frame fd port close payload s = (record s { clients = remove_client fd s.clients }, ok, [])
  take_frame fd port other payload s = (s, ok, [])

  unfoldable pub read_frame : ℕ → ℕ → Incoming → Server S → Server S × Reply × List Effect
  unfolding take_frame
  read_frame fd port f s =
      if not f.header_read
      then (s, fail, [])
      else if length f.payload == 0
      then (s, ok, [])
      else if ltb max_frame (length f.payload)
      then (record s { clients = remove_client fd s.clients }, fail, [])
      else if not f.allocated
      then (s, no_mem, [])
      else if not f.payload_read
      then (s, fail, [])
      else take_frame fd port f.kind f.payload s

  -- A data frame: ws_touch_client first, in seconds for auth.c.
  unfoldable pub data_frame : ℕ → ℕ → Incoming → Server S → Server S × Reply × List Effect
  unfolding read_frame
  data_frame now fd f s =
      let (port, pass) = touch_client now fd s.clients s.auth.sessions in
      let s' = with_sessions pass.sessions (record s { clients = pass.clients }) in
      elim port [ none ↦ (s', fail, map close_socket pass.closed) | some p ↦ read_frame fd p f s' ]

  -- on_close, which then closes the socket.
  unfoldable pub on_close : ℕ → Server S → Server S
  on_close fd s = record s { clients = remove_client fd s.clients }
