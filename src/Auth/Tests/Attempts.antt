-- ===== src/Auth/Tests/Attempts.antt =====
-- The theorems on auth_login at concrete attempts.
use esp32_web_terminal.Prelude.{
  ℕ, zero, suc, ◌≤◌, ◌<◌, ◌≡◌, ◌≢◌, ◌↔◌, refl, true, false, none, some, arith, Bytes, codes,
  replicate, All-replicate,
}
use esp32_web_terminal.Prelude.Text.{str_eq}
use esp32_web_terminal.Auth.Token.{generate_token, AreBytes}
use esp32_web_terminal.Auth.Hosts.{Host, host_key, is_locked_out, record_failure, max_failed}
use esp32_web_terminal.Auth.Hosts.Lookup.{find_host}
use esp32_web_terminal.Auth.Hosts.Claims.{Fits}
use esp32_web_terminal.Auth.Hosts.Lockout.{blocked}
use esp32_web_terminal.Auth.Hosts.Invariant.{HostsInv}
use esp32_web_terminal.Auth.Hosts.Preserve.{init_hosts-HostsInv}
use esp32_web_terminal.Auth.Sessions.{init_sessions}
use esp32_web_terminal.Auth.Sessions.Lookup.{find_session}
use esp32_web_terminal.Auth.Sessions.Opening.{SessionsInv}
use esp32_web_terminal.Auth.Login.{auth_init, login}
use esp32_web_terminal.Auth.Login.Attempts.{login-HostsInv}
use esp32_web_terminal.Auth.Login.Guessing.{WrongGuess, open_guesses, open_guesses-le}
use esp32_web_terminal.Auth.Login.Isolation.{login_isolates}
use esp32_web_terminal.Auth.Login.Access.{login_iff}
use esp32_web_terminal.Auth.Tests.{user, check, home, guess, right, after_guesses}

home-Fits : Fits home
home-Fits = omega arith

guesses-HostsInv : (n : ℕ) → HostsInv (after_guesses n).hosts
guesses-HostsInv zero = init_hosts-HostsInv
guesses-HostsInv (suc n) =
    login-HostsInv user check guess (after_guesses n) home-Fits (guesses-HostsInv n)

free_elsewhere : blocked 102 (find_host (codes "10.0.0.3") (after_guesses 4).hosts) ≡ false
unfolding blocked find_host login is_locked_out record_failure str_eq
free_elsewhere = refl

elsewhere : codes "10.0.0.3" ≢ host_key home
elsewhere = ground arith

login_isolates_example :
    blocked 102 (find_host (codes "10.0.0.3") (login user check guess (after_guesses 4)).1.hosts)
    ≡ false
login_isolates_example =
    login_isolates user check guess (after_guesses 4) (codes "10.0.0.3") 102 home-Fits
      (guesses-HostsInv 4) elsewhere free_elsewhere

home-blocked : blocked 100 (find_host (host_key home) (after_guesses 5).hosts) ≡ true
unfolding blocked find_host login is_locked_out record_failure str_eq
home-blocked = refl

abbrev fourth : Host
fourth = record { used = true; ip = codes "10.0.0.2"; failed_attempts = 4; lockout_until = 0 }

four_counted : find_host (host_key home) (after_guesses 4).hosts ≡ some fourth
unfolding find_host login is_locked_out record_failure str_eq
four_counted = refl

abbrev guess-WrongGuess : WrongGuess user check home 400 guess
guess-WrongGuess = record {
  from_ip = refl;
  wrong = unfold str_eq in refl;
  before = omega arith;
  reaches = omega arith;
}

open_guesses-le_example : open_guesses user check (replicate 8 guess) auth_init ≤ max_failed
open_guesses-le_example =
    open_guesses-le user check home 400 (replicate 8 guess) auth_init home-Fits init_hosts-HostsInv
      (All-replicate (WrongGuess user check home 400) 8 guess guess-WrongGuess)

none_yet : find_session (generate_token right.random) init_sessions ≡ none
unfolding find_session
none_yet = refl

init_sessions-SessionsInv : SessionsInv init_sessions
init_sessions-SessionsInv = record { slots = refl; distinct = ground arith }

login_iff_example : ((login user check right auth_init).0 ≡ some (generate_token right.random)) ↔ (
    (blocked 100 (find_host (host_key home) auth_init.hosts) ≡ false)
    × (user ≡ user)
    × (check (codes "secret") ≡ true)
    × (true ≡ true)
    × (generate_token right.random ≡ generate_token right.random))
login_iff_example =
    login_iff user check right auth_init (generate_token right.random) init_hosts-HostsInv

logged_in : (login user check right auth_init).0 ≡ some (generate_token right.random)
unfolding login is_locked_out str_eq
logged_in = refl

abbrev sevens : Bytes
sevens = replicate 32 7

abbrev eights : Bytes
eights = replicate 32 8

sevens-AreBytes : AreBytes sevens
sevens-AreBytes = All-replicate (λ b. b < 256) 32 7 (omega arith)

eights-AreBytes : AreBytes eights
eights-AreBytes = All-replicate (λ b. b < 256) 32 8 (omega arith)
