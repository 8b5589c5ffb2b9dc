-- ===== src/Ws/Clients/Access.antt =====
-- The table of WebSocket clients as a map from sockets, and what a revoked session still gets.
use esp32_web_terminal.Prelude.{
  ℕ, ◌≡◌, ◌≢◌, refl, Bool, true, false, Option, none, some, List, [], ◌∷◌, arith, Bytes, ◌==◌,
  if◌then◌else◌, ◌&&◌,
}
use esp32_web_terminal.Auth.Token.{token_size}
use esp32_web_terminal.Auth.Sessions.{Session, validate_session}
use esp32_web_terminal.Ws.Clients.{Client, copy_token, add_client, remove_client, touch_client}

-- The client of a socket: the first active slot with it.
unfoldable pub find_client : ℕ → List Client → Option Client
find_client fd [] = none
find_client fd (c ∷ cs) = if c.active && c.fd == fd then some c else find_client fd cs

-- No socket stands in two active slots.
abbrev pub FdsDistinct : List Client → Type 0
FdsDistinct [] = Unit {0}
FdsDistinct (c ∷ cs) = (c.active ≡ true → find_client c.fd cs ≡ none) × FdsDistinct cs

unfoldable pub any_free : List Client → Bool
any_free [] = false
any_free (c ∷ cs) = if c.active then any_free cs else true

abbrev pub new_client : ℕ → ℕ → ℕ → Bytes → Client
new_client now fd port_index token = record {
  fd = fd;
  active = true;
  port_index = port_index;
  token = copy_token token_size token;
  last_auth_us = now;
}

not_first :
    (fd : ℕ) (c : Client) (cs : List Client)
    → find_client fd (c ∷ cs) ≡ none
    → ((c.active && c.fd == fd) ≡ false) × (find_client fd cs ≡ none)
unfolding find_client
not_first fd c cs e = ground arith

module _ (now fd port_index : ℕ) (token : Bytes) where
  -- For a socket that is not in the table: a handshake is refused exactly if all slots are in
  -- use; otherwise the table maps the socket to the new client, and every other socket as before.
  pub find_client-add_client :
      (other : ℕ) (cs : List Client)
      → find_client fd cs ≡ none
      → other ≢ fd
      → let (added, cs') = add_client now fd port_index token cs in
        (added ≡ any_free cs)
        × (find_client fd cs' ≡ (if added then some (new_client now fd port_index token) else none))
        × (find_client other cs' ≡ find_client other cs)
  unfolding add_client find_client any_free
  find_client-add_client other [] e ne = (refl, refl, refl)
  find_client-add_client other (c ∷ cs) e ne =
      let (skip, rest) = not_first fd c cs e in
      let (grows, own, others) = find_client-add_client other cs rest ne in
      (ground (arith, grows), ground (arith, own, skip, rest), ground (arith, others, ne))

-- In a table with no socket in two active slots: a socket that closes is no longer in the table,
-- and every other socket is as before.
pub remove_client-find :
    (fd other : ℕ) (cs : List Client)
    → FdsDistinct cs
    → other ≢ fd
    → (find_client fd (remove_client fd cs) ≡ none)
      × (find_client other (remove_client fd cs) ≡ find_client other cs)
unfolding remove_client find_client
remove_client-find fd other [] d ne = (refl, refl)
remove_client-find fd other (c ∷ cs) d ne =
    ground (arith, ne, d.0, remove_client-find fd other cs d.1 ne)

-- What a data frame from a socket is answered: its client's port, if its session is accepted.
unfoldable pub answer : ℕ → Option Client → List Session → Option ℕ
answer now none ss = none
answer now (some c) ss =
    if (validate_session now (some c.token) ss).0 then some c.port_index else none

unfoldable pub sessions_after : ℕ → Option Client → List Session → List Session
sessions_after now none ss = ss
sessions_after now (some c) ss = (validate_session now (some c.token) ss).1

-- A client that is refused is removed.
unfoldable pub clients_after : ℕ → Option ℕ → List Client → List Client
clients_after fd none cs = remove_client fd cs
clients_after fd (some p) cs = cs

-- A data frame is answered by the port of its socket's client, if the client's session is
-- accepted; otherwise by nothing, and the client is removed. The sessions are as that validation
-- leaves them.
pub touch_client-answer :
    (now fd : ℕ) (cs : List Client) (ss : List Session)
    → let (port, pass) = touch_client now fd cs ss in
      (port ≡ answer now (find_client fd cs) ss)
      × (pass.sessions ≡ sessions_after now (find_client fd cs) ss)
      × (pass.clients ≡ clients_after fd port cs)
unfolding touch_client find_client answer sessions_after clients_after remove_client
touch_client-answer now fd [] ss = (refl, refl, refl)
touch_client-answer now fd (c ∷ cs) ss =
    let (ports, sessions, clients) = touch_client-answer now fd cs ss in
    (ground (arith, ports), ground (arith, sessions), ground (arith, clients))
