-- ===== src/Ws/Tests.antt =====
-- Rings, clients and runs on which the theorems on the WebSocket side are tried.
pub mod Frames
pub mod Sockets
use esp32_web_terminal.Prelude.{ℕ, suc, Bool, true, false, List, [], ◌∷◌, Bytes, replicate}
use esp32_web_terminal.Auth.Sessions.{Session}
use esp32_web_terminal.Ws.Ring.{Target, port, Ring, empty_ring, push}
use esp32_web_terminal.Ws.Clients.{Client}

abbrev pub hello : Bytes
hello = 104 ∷ 105 ∷ []

-- A ring that holds one frame.
abbrev pub one_frame : Ring
one_frame = (push (port 1) hello empty_ring).1

abbrev pub client : ℕ → ℕ → Client
client fd port_index = record {
  fd = fd;
  active = true;
  port_index = port_index;
  token = fd ∷ [];
  last_auth_us = 0;
}

abbrev pub clients : List Client
clients = client 50 1 ∷ client 51 0 ∷ []

-- The session of the first client; the second has none.
abbrev pub sessions : List Session
sessions = record { token = 50 ∷ []; last_activity = 1; active = true } ∷ []
