-- ===== src/Auth/Login/Access.antt =====
-- What a successful login gives: a session that its token opens for an hour.
use esp32_web_terminal.Prelude.{
  ℕ, ◌-◌, ◌≡◌, ◌≢◌, ◌↔◌, ap, ◌∙◌, Bool, true, false, none, some, [], arith, Bytes, leb,
  eq_of_str_eq, str_eq_refl, length,
}
use esp32_web_terminal.Auth.Token.{generate_token, token_bytes, length-token_loop}
use esp32_web_terminal.Auth.Hosts.{host_key}
use esp32_web_terminal.Auth.Hosts.Lookup.{find_host}
use esp32_web_terminal.Auth.Hosts.Lockout.{blocked, is_locked_out-LockedAs}
use esp32_web_terminal.Auth.Hosts.Invariant.{HostsInv}
use esp32_web_terminal.Auth.Sessions.{session_timeout_s, open_session, validate_session}
use esp32_web_terminal.Auth.Sessions.Lookup.{find_session, live, validate_session-live}
use esp32_web_terminal.Auth.Sessions.Slots.{open_session-live}
use esp32_web_terminal.Auth.Sessions.Opening.{
  SessionsInv, find_session-open_session, open_session-SessionsInv,
}
use esp32_web_terminal.Auth.Login.{Auth, Attempt, login}
use esp32_web_terminal.Auth.Login.Attempts.{pos_slots}

generate_token-ne-nil : (r : Bytes) → length r ≡ token_bytes → generate_token r ≢ []
unfolding generate_token
generate_token-ne-nil r l e = absurd (omega (arith, length-token_loop 65 0 r, ap length e))

module _ (auth_user : Bytes) (check_password : Bytes → Bool) where
  -- auth_login preserves SessionsInv (four slots, no token in two active ones), if the token that
  -- it draws is carried by no active session.
  pub login-SessionsInv :
      (t : Attempt) (a : Auth)
      → find_session (generate_token t.random) a.sessions ≡ none
      → SessionsInv a.sessions
      → SessionsInv (login auth_user check_password t a).1.sessions
  unfolding login
  login-SessionsInv t a e v =
      ground
        (arith, v, open_session-SessionsInv t.decided_at (generate_token t.random) a.sessions e v)

  -- With tables that fulfil HostsInv, auth_login gives a token exactly to an address that is not
  -- locked out, for the right credentials, where the copy of the token can be allocated: the
  -- token of the bytes drawn.
  pub login_iff :
      (t : Attempt) (a : Auth) (token : Bytes)
      → HostsInv a.hosts
      → ((login auth_user check_password t a).0 ≡ some token) ↔ (
          (blocked t.checked_at (find_host (host_key t.client_ip) a.hosts) ≡ false)
          × (t.username ≡ auth_user)
          × (check_password t.password ≡ true)
          × (t.dup_works ≡ true)
          × (generate_token t.random ≡ token))
  unfolding login
  login_iff t a token v =
      let l = (is_locked_out-LockedAs t.checked_at t.client_ip a.hosts (pos_slots v)).0 in
      (
        λ e. ground (arith, l, e, eq_of_str_eq t.username auth_user),
        λ e. ground (arith, l, e, str_eq_refl auth_user),
      )

  login-open_session :
      (t : Attempt) (a : Auth) (token : Bytes)
      → (login auth_user check_password t a).0 ≡ some token
      → (generate_token t.random ≡ token)
        × ((login auth_user check_password t a).1.sessions
            ≡ open_session t.decided_at (generate_token t.random) a.sessions)
  unfolding login
  login-open_session t a token e = ground arith

  pub login_made :
      (t : Attempt) (a : Auth) (token : Bytes)
      → (login auth_user check_password t a).0 ≡ some token
      → generate_token t.random ≡ token
  login_made t a token e = (login-open_session t a token e).0

  -- From a table that fulfils SessionsInv, with 32 random bytes: the token of a successful login
  -- is accepted at the time of the login, whatever tokens the other sessions carry.
  pub login_opens :
      (t : Attempt) (a : Auth) (token : Bytes)
      → SessionsInv a.sessions
      → length t.random ≡ token_bytes
      → (login auth_user check_password t a).0 ≡ some token
      → (validate_session t.decided_at
          (some token)
          (login auth_user check_password t a).1.sessions).0
        ≡ true
  login_opens t a token v l e =
      let (made, opened) = login-open_session t a token e in
      rw (opened, ← made)
        (validate_session-live t.decided_at _ _ (generate_token-ne-nil t.random l)
          ∙ open_session-live t.decided_at _ a.sessions (omega (arith, v.slots)))

  -- From a table that fulfils SessionsInv, with 32 random bytes: if no active session carried the
  -- token of a successful login, it is accepted, unused, until an hour after the login and not
  -- later.
  pub login_lasts :
      (t : Attempt) (a : Auth) (token : Bytes) (now : ℕ)
      → SessionsInv a.sessions
      → length t.random ≡ token_bytes
      → (login auth_user check_password t a).0 ≡ some token
      → find_session token a.sessions ≡ none
      → (validate_session now (some token) (login auth_user check_password t a).1.sessions).0
        ≡ leb (now - t.decided_at) session_timeout_s
  unfolding live
  login_lasts t a token now v l e fresh =
      let (made, opened) = login-open_session t a token e in
      let new =
        find_session-open_session t.decided_at (generate_token t.random) a.sessions
          (omega (arith, v.slots)) (rw made fresh) in
      rw (opened, ← made)
        (validate_session-live now _ _ (generate_token-ne-nil t.random l) ∙ rw new)
