-- ===== src/Ws/Clients.antt =====
-- main/web_server.c: the WebSocket clients (ws_client_t and the functions over s_ws_clients) and
-- ws_flush_work. What httpd_ws_send_frame_async answers is an argument, and each send that it is
-- asked for is listed.
pub mod Access
pub mod Delivery
pub mod Flush
pub mod Revoked
use esp32_web_terminal.Prelude.{
  ℕ, zero, suc, ◌+◌, ◌-◌, Bool, true, false, not, Option, none, some, List, [], ◌∷◌, ◌++◌, Bytes,
  ltb, ◌==◌, if◌then◌else◌, take, map, replicate, ◌&&◌,
}
use esp32_web_terminal.Auth.Token.{token_size}
use esp32_web_terminal.Auth.Sessions.{Session, validate_session}
use esp32_web_terminal.Ws.Ring.{Target, text_event, port, Frame, Ring, pop, unkick, tx_slots}

abbrev pub max_ws_clients : ℕ
max_ws_clients = 4

-- WS_AUTH_RECHECK_US
abbrev pub auth_recheck_us : ℕ
auth_recheck_us = 1000000

pub record Client : Type 0 where
  pub fd : ℕ
  pub active : Bool
  pub port_index : ℕ
  pub token : Bytes
  pub last_auth_us : ℕ

abbrev pub blank_client : Client
blank_client = record { fd = 0; active = false; port_index = 0; token = []; last_auth_us = 0 }

-- The table after web_server_init.
abbrev pub init_clients : List Client
init_clients = replicate max_ws_clients blank_client

-- copy_token: what strncpy and the terminator leave of a token.
abbrev pub copy_token : ℕ → Bytes → Bytes
copy_token dst_len src = take (dst_len - 1) src

-- A frame that httpd is asked to send to the client of a slot.
pub record Send : Type 0 where
  pub slot : ℕ
  pub fd : ℕ
  pub frame : Frame

-- ws_add_client, with the time that it reads.
unfoldable pub add_client : ℕ → ℕ → ℕ → Bytes → List Client → Bool × List Client
add_client now fd port_index token [] = (false, [])
add_client now fd port_index token (c ∷ cs) =
    let rest = add_client now fd port_index token cs in
    if c.active then (rest.0, c ∷ rest.1) else (
      true,
      record {
        fd = fd;
        active = true;
        port_index = port_index;
        token = copy_token token_size token;
        last_auth_us = now;
      }
          ∷ cs,
    )

-- ws_evict_client, but for the close frame, which is best effort: the callers list its socket.
abbrev pub evict : Client → Client
evict c = record c { active = false }

-- What a pass over the clients leaves: the clients, the sessions, and the sockets that were sent a
-- close frame.
pub record Pass : Type 0 where
  pub clients : List Client
  pub sessions : List Session
  pub closed : List ℕ

-- `active`, and not validated within the last WS_AUTH_RECHECK_US. The difference is signed in C;
-- where it is negative both tests skip the client.
abbrev pub due : ℕ → Client → Bool
due now c = c.active && not (ltb (now - c.last_auth_us) auth_recheck_us)

-- ws_revalidate_locked at `now` microseconds, from slot `i` on; auth_validate_session reads
-- `seconds i` as the time at slot `i`.
unfoldable pub revalidate : ℕ → (ℕ → ℕ) → ℕ → List Client → List Session → Pass
revalidate now seconds i [] ss = record { clients = []; sessions = ss; closed = [] }
revalidate now seconds i (c ∷ cs) ss =
    let checked = validate_session (seconds i) (some c.token) ss in
    let ss' = if due now c then checked.1 else ss in
    let rest = revalidate now seconds (suc i) cs ss' in
    let kept = record c { last_auth_us = now } in
    if due now c
    then (if checked.0
        then record rest { clients = kept ∷ rest.clients }
        else record rest { clients = evict kept ∷ rest.clients; closed = c.fd ∷ rest.closed })
    else record rest { clients = c ∷ rest.clients }

-- web_server_ws_close_all, once the server and the mutex exist; the list is of the sockets that
-- are sent a close frame.
unfoldable pub close_all : List Client → List Client × List ℕ
close_all [] = ([], [])
close_all (c ∷ cs) =
    let rest = close_all cs in
    if c.active then (evict c ∷ rest.0, c.fd ∷ rest.1) else (c ∷ rest.0, rest.1)

-- ws_remove_client: the first active client of the socket.
unfoldable pub remove_client : ℕ → List Client → List Client
remove_client fd [] = []
remove_client fd (c ∷ cs) =
    let rest = remove_client fd cs in if c.active && c.fd == fd then evict c ∷ cs else c ∷ rest

-- ws_touch_client: the port of the socket's client, if its session is valid.
unfoldable pub touch_client : ℕ → ℕ → List Client → List Session → Option ℕ × Pass
touch_client now fd [] ss = (none, record { clients = []; sessions = ss; closed = [] })
touch_client now fd (c ∷ cs) ss =
    let rest = touch_client now fd cs ss in
    let checked = validate_session now (some c.token) ss in
    if c.active && c.fd == fd
    then (if checked.0
        then (some c.port_index, record { clients = c ∷ cs; sessions = checked.1; closed = [] })
        else (none, record { clients = evict c ∷ cs; sessions = checked.1; closed = c.fd ∷ [] }))
    else (rest.0, record (rest.1) { clients = c ∷ rest.1.clients })

-- `port < 0 || s_ws_clients[i].port_index == port`
abbrev pub wants : Target → Client → Bool
wants text_event c = true
wants (port p) c = c.port_index == p

-- The inner loop of ws_flush_work: one frame to each client that wants it, from slot `i` on. A
-- client that cannot be sent to is dropped.
unfoldable pub deliver : (ℕ → Bool) → Frame → ℕ → List Client → List Client × List Send
deliver works f i [] = ([], [])
deliver works f i (c ∷ cs) =
    let rest = deliver works f (suc i) cs in
    if c.active && wants f.target c
    then (
      (if works i then c else evict c) ∷ rest.0,
      record { slot = i; fd = c.fd; frame = f } ∷ rest.1,
    )
    else (c ∷ rest.0, rest.1)

-- What a flush leaves, the sockets that it sent a close frame first, and the frames that it sent then.
pub record Flushed : Type 0 where
  pub ring : Ring
  pub closes : List ℕ
  pub clients : List Client
  pub sends : List Send

-- The outer loop of ws_flush_work; `works n i` is whether the send of the n-th frame to slot `i`
-- succeeds.
unfoldable pub drain : ℕ → (ℕ → ℕ → Bool) → ℕ → Ring → List Client → Flushed
unfolding deliver pop
drain zero works n r cs = record { ring = r; closes = []; clients = cs; sends = [] }
drain (suc fuel) works n r cs =
    let (front, r') = pop r in
    elim front [
      | none ↦ record { ring = r'; closes = []; clients = cs; sends = [] }
      | some f ↦
          let (cs', sent) = deliver (works n) f 0 cs in
          let later = drain fuel works (suc n) r' cs' in
          record later { sends = sent ++ later.sends }
    ]

-- ws_flush_work while no producer runs: the ring holds at most `tx_slots` frames.
unfoldable pub flush :
    ℕ → (ℕ → ℕ) → (ℕ → ℕ → Bool) → Ring → List Client → List Session → Flushed × List Session
unfolding revalidate drain
flush now seconds works r cs ss =
    let pass = revalidate now seconds 0 cs ss in
    (
      record (drain tx_slots works 0 (unkick r) pass.clients) { closes = pass.closed },
      pass.sessions,
    )
