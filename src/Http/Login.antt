-- ===== src/Http/Login.antt =====
-- main/web_server.c: handle_login.
use esp32_web_terminal.Prelude.{
  ℕ, ◌-◌, Bool, Option, none, some, [], ◌∷◌, ◌++◌, Bytes, codes, if◌then◌else◌, take,
}
use esp32_web_terminal.Auth.Hosts.{is_locked_out}
use esp32_web_terminal.Auth.Login.{Auth, Attempt, login}
use esp32_web_terminal.Config.Setters.{check_password}
use esp32_web_terminal.Http.{
  Server, set_cookie, json, error, Request, Document, Outcome, bad_request, answer,
}
use esp32_web_terminal.Http.Body.{Body, read_body}

-- What a login draws from outside: the address of the peer, the times at which the lockout is
-- checked before the body is read, and those of auth_login, the random bytes, and the memory.
pub record LoginDraws : Type 0 where
  pub peer : Option Bytes
  pub arrived_at : ℕ
  pub checked_at : ℕ
  pub decided_at : ℕ
  pub random : Bytes
  pub dup_works : Bool
  pub allocated : Bool
  pub junk : Bytes

abbrev pub cookie_size : ℕ
cookie_size = 128

-- The Set-Cookie header of handle_login.
abbrev pub login_cookie : Bytes → Bytes
login_cookie token =
    take (cookie_size - 1)
      (codes "session=" ++ (token ++ codes "; Path=/; HttpOnly; Secure; SameSite=Strict"))

-- The text that handle_login answers.
abbrev pub login_text : Bool → Bytes → Bytes
login_text initialized token = take 191 (
    codes "{\"ok\":true,\"must_change_password\":"
    ++ ((if initialized then codes "false" else codes "true")
        ++ (codes ",\"token\":\"" ++ (token ++ codes "\"}"))))

-- The call of auth_login.
abbrev pub attempt_of : LoginDraws → Bytes → Bytes → Attempt
attempt_of x username password = record {
  username = username;
  password = password;
  client_ip = x.peer;
  checked_at = x.checked_at;
  decided_at = x.decided_at;
  random = x.random;
  dup_works = x.dup_works;
}

module _ (sha256 : Bytes → Bytes) {S : Type 0} where
  abbrev pub with_auth : Auth → Server S → Server S
  with_auth a s = record s { auth = a }

  -- What follows the call of auth_login.
  unfoldable pub login_answer : Option Bytes → Auth → Server S → Outcome S
  login_answer none a s = answer (with_auth a s) (error 401 (codes "Invalid credentials"))
  login_answer (some token) a s = some (
    with_auth a s,
    json (login_text s.config.auth_initialized token),
    set_cookie (login_cookie token) ∷ [],
  )

  -- From the two strings on.
  unfoldable pub login_with : LoginDraws → Bytes → Bytes → Server S → Outcome S
  unfolding login_answer
  login_with x username password s =
      let r =
        login s.config.auth_user (λ p. check_password sha256 x.allocated x.junk p s.config)
          (attempt_of x username password) s.auth in
      login_answer r.0 r.1 s

  unfoldable pub login_document : LoginDraws → Option Bytes → Option Bytes → Server S → Outcome S
  unfolding login_with
  login_document x none password s = bad_request s (codes "Missing username or password")
  login_document x (some username) none s = bad_request s (codes "Missing username or password")
  login_document x (some username) (some password) s = login_with x username password s

  unfoldable pub login_body : (Bytes → Option Document) → LoginDraws → Body → Server S → Outcome S
  unfolding login_document
  login_body parse x Body.absent s = bad_request s (codes "Empty request body")
  login_body parse x Body.bad s = bad_request s (codes "Invalid request size")
  login_body parse x (Body.body bytes) s = elim (parse bytes) [
    | none ↦ bad_request s (codes "Invalid JSON")
    | some d ↦ login_document x (d.string_at (codes "username")) (d.string_at (codes "password")) s
  ]

  unfoldable pub handle_login :
      (Bytes → Option Document) → LoginDraws → Request → Server S → Outcome S
  unfolding login_body read_body
  handle_login parse x r s =
      let locked = is_locked_out x.arrived_at x.peer s.auth.hosts in
      let s' = with_auth (record { sessions = s.auth.sessions; hosts = locked.1 }) s in
      if locked.0
      then answer s' (error 429 (codes "Too many failed attempts. Try again later."))
      else login_body parse x (read_body r.content_len r.segments 256) s'
