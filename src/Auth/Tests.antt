-- ===== src/Auth/Tests.antt =====
-- Attempts, tables and headers on which the theorems on auth.c are tried.
pub mod Attempts
pub mod Sessions
pub mod Cookies
use esp32_web_terminal.Prelude.{
  ℕ, zero, suc, ◌+◌, Bool, true, false, Option, some, List, [], ◌∷◌, Bytes, codes, str_eq,
  replicate,
}
use esp32_web_terminal.Auth.Sessions.{Session}
use esp32_web_terminal.Auth.Login.{Auth, auth_init, Attempt, login}

abbrev pub user : Bytes
user = codes "admin"

abbrev pub check : Bytes → Bool
check p = str_eq p (codes "secret")

abbrev pub home : Option Bytes
home = some (codes "10.0.0.2")

abbrev pub guess : Attempt
guess = record {
  username = user;
  password = codes "guess";
  client_ip = home;
  checked_at = 100;
  decided_at = 101;
  random = replicate 32 7;
  dup_works = true;
}

abbrev pub right : Attempt
right = record guess { password = codes "secret" }

-- The state after some wrong guesses.
abbrev pub after_guesses : ℕ → Auth
after_guesses zero = auth_init
after_guesses (suc n) = (login user check guess (after_guesses n)).1

abbrev pub session_at : ℕ → ℕ → Session
session_at token time = record { token = token ∷ []; last_activity = time; active = true }

abbrev pub full_table : List Session
full_table = session_at 1 40 ∷ session_at 2 30 ∷ session_at 3 50 ∷ session_at 4 60 ∷ []
