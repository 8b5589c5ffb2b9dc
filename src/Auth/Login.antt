-- ===== src/Auth/Login.antt =====
-- main/auth.c: the two tables together, auth_init, auth_login and the other entry points. What
-- config.c answers (the user name and the password check) is an argument.
pub mod Attempts
pub mod Guessing
pub mod Isolation
pub mod Access
use esp32_web_terminal.Prelude.{
  ℕ, Bool, true, false, not, ◌||◌, Option, none, some, List, Bytes, if◌then◌else◌, str_eq,
}
use esp32_web_terminal.Auth.Token.{generate_token}
use esp32_web_terminal.Auth.Hosts.{Host, init_hosts, is_locked_out, record_failure, trust_host}
use esp32_web_terminal.Auth.Sessions.{Session, init_sessions, open_session}

-- The static state of auth.c.
pub record Auth : Type 0 where
  pub sessions : List Session
  pub hosts : List Host

abbrev pub auth_init : Auth
auth_init = record { sessions = init_sessions; hosts = init_hosts }

-- One call of auth_login and what it draws from outside: mono_now is read once by the lockout
-- check and once more, after the password was hashed; esp_fill_random gives the token's bytes;
-- strdup of the token may fail.
pub record Attempt : Type 0 where
  pub username : Bytes
  pub password : Bytes
  pub client_ip : Option Bytes
  pub checked_at : ℕ
  pub decided_at : ℕ
  pub random : Bytes
  pub dup_works : Bool

module _ (auth_user : Bytes) (check_password : Bytes → Bool) where
  -- `strcmp(username, conf->auth_user) != 0 || !config_check_password(password)`
  abbrev pub rejected : Attempt → Bool
  rejected t = not (str_eq t.username auth_user) || not (check_password t.password)

  unfoldable pub login : Attempt → Auth → Option Bytes × Auth
  login t a =
      let (locked, hosts) = is_locked_out t.checked_at t.client_ip a.hosts in
      if locked
      then (none, record a { hosts = hosts })
      else if rejected t
      then (none, record a { hosts = record_failure t.decided_at t.client_ip hosts })
      else (
        if t.dup_works then some (generate_token t.random) else none,
        record {
          sessions = open_session t.decided_at (generate_token t.random) a.sessions;
          hosts = trust_host t.client_ip hosts;
        },
      )
